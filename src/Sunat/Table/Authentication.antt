-- ===== src/Sunat/Table/Authentication.antt =====
-- `EXPLICIT_ERROR_MAP` (src/sunat-errors/sunat-errors.constants.ts): the user, the password and the state of the taxpayer.
use facturify.Base.{List, [], ◌∷◌}
use facturify.Js.Text.{Text}
use facturify.Sunat.Table.{ErrorDefinition, row, authentication}

unfoldable pub authentication_errors : List (Text × ErrorDefinition)
authentication_errors =
    row "0100" authentication "0100"
      "Error de autenticación o autorización con el servicio web de SUNAT."
    ∷ row "0101" authentication "0101" "Encabezado de seguridad SOAP o credenciales no válidas."
    ∷ row "0102" authentication "0102"
        "Usuario o contraseña SOL incorrectos o sin permisos suficientes."
    ∷ row "0103" authentication "0103" "El usuario SOL no se encuentra activo."
    ∷ row "0104" authentication "0104"
        "Número de RUC del emisor no encontrado en el padrón de SUNAT."
    ∷ row "0105" authentication "0105" "El RUC del emisor no se encuentra en estado ACTIVO."
    ∷ row "0106" authentication "0106" "El RUC del emisor no tiene la condición de HABIDO."
    ∷ row "0109" authentication "0109"
        "El contribuyente no está autorizado a emitir comprobantes electrónicos."
    ∷ row "0110" authentication "0110" "El usuario SOL no tiene un número de RUC asociado."
    ∷ row "0111" authentication "0111" "Usuario no autorizado a enviar comprobantes electrónicos."
    ∷ row "0112" authentication "0112" "Usuario no autorizado a emitir este tipo de comprobante."
    ∷ row "0113" authentication "0113"
        "El contribuyente no se encuentra incorporado como emisor electrónico."
    ∷ row "0114" authentication "0114" "Usuario secundario SOL dado de baja o inactivo."
    ∷ row "0115" authentication "0115" "Clave SOL bloqueada por superación de intentos fallidos."
    ∷ []
