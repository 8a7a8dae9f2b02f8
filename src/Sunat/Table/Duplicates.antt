-- ===== src/Sunat/Table/Duplicates.antt =====
-- `EXPLICIT_ERROR_MAP` (src/sunat-errors/sunat-errors.constants.ts): what has been registered before.
use facturify.Base.{List, [], ◌∷◌}
use facturify.Js.Text.{Text}
use facturify.Sunat.Table.{ErrorDefinition, row, duplicate}

unfoldable pub duplicate_errors : List (Text × ErrorDefinition)
duplicate_errors =
    row "1033" duplicate "1033" "El comprobante ya fue registrado previamente en SUNAT."
    ∷ row "0151" duplicate "0151" "El nombre del archivo ZIP ya existe en los registros de SUNAT."
    ∷ row "0152" duplicate "0152" "El comprobante ya fue enviado y procesado anteriormente."
    ∷ row "0153" duplicate "0153" "El comprobante ya existe con estado de aceptado o anulado."
    ∷ row "0154" duplicate "0154"
        "El comprobante ya fue informado en una comunicación o resumen previo."
    ∷ row "2300" duplicate "2300" "El comprobante ya fue emitido y registrado anteriormente."
    ∷ row "2301" duplicate "2301" "El comprobante ya fue dado de baja o anulado previamente."
    ∷ row "2302" duplicate "2302"
        "Ya existe un comprobante registrado con la misma serie y número correlativo."
    ∷ []
