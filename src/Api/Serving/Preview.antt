-- ===== src/Api/Serving/Preview.antt =====
-- When a request is treated as a preview.
use icapegclh.External.{External}
use icapegclh.Api.Handler.{Handler}
