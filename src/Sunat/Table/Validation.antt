-- ===== src/Sunat/Table/Validation.antt =====
-- `EXPLICIT_ERROR_MAP` (src/sunat-errors/sunat-errors.constants.ts): what breaks a rule of SUNAT.
use facturify.Base.{List, [], ◌∷◌}
use facturify.Js.Text.{Text}
use facturify.Sunat.Table.{ErrorDefinition, row, validation}

unfoldable pub validation_errors : List (Text × ErrorDefinition)
validation_errors =
    row "1001" validation "1001" "El RUC del emisor no es válido."
    ∷ row "1002" validation "1002" "El tipo de comprobante no corresponde al solicitado."
    ∷ row "1003" validation "1003" "La serie no corresponde al tipo de comprobante electrónico."
    ∷ row "1004" validation "1004" "El número correlativo del comprobante es incorrecto o inválido."
    ∷ row "1005" validation "1005"
        "La fecha de emisión no cumple con los plazos permitidos por SUNAT."
    ∷ row "2014" validation "2014" "El número de documento de identidad del receptor no es válido."
    ∷ row "2015" validation "2015" "La razón social o nombres del receptor son obligatorios."
    ∷ row "2020" validation "2020"
        "La fecha de emisión del comprobante no es válida o está fuera de rango."
    ∷ row "2021" validation "2021"
        "El código de moneda especificado no es válido según catálogo SUNAT."
    ∷ row "2022" validation "2022" "El tipo de cambio es inválido o no corresponde a la fecha."
    ∷ row "2023" validation "2023"
        "El importe total del comprobante no coincide con la sumatoria de ítems."
    ∷ row "2027" validation "2027"
        "El porcentaje o monto de IGV no coincide con la tasa legal vigente."
    ∷ row "2034" validation "2034"
        "El código de tipo de operación no corresponde a la operación comercial."
    ∷ row "2050" validation "2050" "La unidad de medida de uno o más ítems no es válida."
    ∷ []
