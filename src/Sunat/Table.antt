-- ===== src/Sunat/Table.antt =====
-- The categories and the table of known errors (src/sunat-errors/sunat-errors.constants.ts). The
-- children of this module hold the rows of the table, by category.
pub mod Authentication
pub mod Duplicates
pub mod Transport
pub mod Validation
pub mod Rejections
use Prim.Native.String.{String}
use facturify.Base.{Bool, true, false, List, [], ◌∷◌}
use facturify.Js.Text.{Text, codes}

pub data SunatErrorCategory : Type 0 where
  authentication validation duplicate rejected temporary unknown : SunatErrorCategory

pub record ErrorDefinition : Type 0 where
  pub category : SunatErrorCategory
  pub public_code : Text
  pub public_message : Text

-- `CATEGORY_RETRYABLE`
unfoldable pub category_retryable : SunatErrorCategory → Bool
category_retryable temporary = true
category_retryable _ = false

-- `CATEGORY_DEFAULT_MESSAGES`
unfoldable pub category_default_message : SunatErrorCategory → Text
category_default_message authentication =
    codes "Error de autenticación o credenciales con el servicio de SUNAT."
category_default_message validation =
    codes "El comprobante no cumple con las reglas de validación de SUNAT."
category_default_message duplicate =
    codes "El comprobante o archivo ya fue registrado previamente en SUNAT."
category_default_message temporary =
    codes "Fallo temporal o tiempo de espera agotado al conectar con SUNAT."
category_default_message rejected =
    codes "Comprobante rechazado por la administración tributaria SUNAT."
category_default_message unknown = codes "Error no clasificado de SUNAT."

-- A row: the key, the category, the public code and the public message.
abbrev pub row : String → SunatErrorCategory → String → String → Text × ErrorDefinition
row key category code message = (
  codes key,
  record { category = category; public_code = codes code; public_message = codes message },
)
