-- ===== src/Sunat/Table/Transport.antt =====
-- `EXPLICIT_ERROR_MAP` (src/sunat-errors/sunat-errors.constants.ts): what SUNAT or the network fails to do for the moment.
use facturify.Base.{List, [], ◌∷◌}
use facturify.Js.Text.{Text}
use facturify.Sunat.Table.{ErrorDefinition, row, temporary}

unfoldable pub temporary_errors : List (Text × ErrorDefinition)
temporary_errors =
    row "0159" temporary "0159"
      "Problema temporal en la plataforma de SUNAT al recibir el comprobante."
    ∷ row "0160" temporary "0160"
        "Error temporal en la recepción de comprobantes de SUNAT. Reintentable."
    ∷ row "0161" temporary "0161" "Error temporal de conexión con el servicio web de SUNAT."
    ∷ row "0162" temporary "0162"
        "El servicio de SUNAT se encuentra temporalmente fuera de servicio."
    ∷ row "0163" temporary "0163"
        "Tiempo de espera de procesamiento excedido en los servidores de SUNAT."
    ∷ row "TIMEOUT" temporary "TIMEOUT"
        "Tiempo de espera agotado al conectar con los servidores de SUNAT."
    ∷ row "ETIMEDOUT" temporary "ETIMEDOUT"
        "Tiempo de espera de conexión agotado al conectar con SUNAT."
    ∷ row "ESOCKETTIMEDOUT" temporary "ESOCKETTIMEDOUT"
        "Tiempo de espera de socket agotado en la comunicación con SUNAT."
    ∷ row "ECONNRESET" temporary "ECONNRESET"
        "Conexión reiniciada inesperadamente por los servidores de SUNAT."
    ∷ row "ECONNREFUSED" temporary "ECONNREFUSED" "Conexión rechazada por el servidor web de SUNAT."
    ∷ row "ENOTFOUND" temporary "ENOTFOUND"
        "No se pudo resolver el nombre de dominio del servicio de SUNAT."
    ∷ row "EAI_AGAIN" temporary "EAI_AGAIN"
        "Fallo temporal en la resolución DNS del servicio de SUNAT."
    ∷ row "ABORT_ERROR" temporary "ABORT_ERROR"
        "La petición hacia SUNAT fue abortada por exceder el tiempo límite."
    ∷ row "HTTP_500" temporary "HTTP_500"
        "Error interno temporal (HTTP 500) en el servidor de SUNAT."
    ∷ row "HTTP_502" temporary "HTTP_502"
        "Puerta de enlace incorrecta (HTTP 502) al conectar con SUNAT."
    ∷ row "HTTP_503" temporary "HTTP_503"
        "Servicio de SUNAT temporalmente no disponible (HTTP 503)."
    ∷ row "HTTP_504" temporary "HTTP_504"
        "Tiempo de espera de la puerta de enlace agotado (HTTP 504) en SUNAT."
    ∷ row "500" temporary "HTTP_500" "Error interno temporal (HTTP 500) en el servidor de SUNAT."
    ∷ row "502" temporary "HTTP_502" "Puerta de enlace incorrecta (HTTP 502) al conectar con SUNAT."
    ∷ row "503" temporary "HTTP_503" "Servicio de SUNAT temporalmente no disponible (HTTP 503)."
    ∷ row "504" temporary "HTTP_504"
        "Tiempo de espera de la puerta de enlace agotado (HTTP 504) en SUNAT."
    ∷ []
