-- ===== src/Sunat/Table/Rejections.antt =====
-- `EXPLICIT_ERROR_MAP` (src/sunat-errors/sunat-errors.constants.ts): what SUNAT has rejected.
use facturify.Base.{List, [], ◌∷◌}
use facturify.Js.Text.{Text}
use facturify.Sunat.Table.{ErrorDefinition, row, rejected}

unfoldable pub rejected_errors : List (Text × ErrorDefinition)
rejected_errors =
    row "3000" rejected "3000" "Comprobante rechazado por SUNAT por inconsistencias insubsanables."
    ∷ row "3001" rejected "3001"
        "Comprobante rechazado por no superar las validaciones estructurales."
    ∷ row "3002" rejected "3002"
        "Comprobante rechazado por incumplimiento de la normativa tributaria."
    ∷ row "3003" rejected "3003" "La firma digital del documento XML no es válida o está corrupta."
    ∷ row "3004" rejected "3004"
        "El certificado digital está vencido, revocado o no es de confianza."
    ∷ row "3005" rejected "3005"
        "El certificado digital no corresponde al RUC del emisor electrónico."
    ∷ row "3006" rejected "3006"
        "El algoritmo o estándar de firma digital no es aceptado por SUNAT."
    ∷ row "4000" rejected "4000"
        "Comprobante rechazado definitivamente por la administración tributaria."
    ∷ []
