-- ===== src/Status/Tests.antt =====
-- The theorems on the conversions at concrete results.
use xrdcl_pelican.Status
use xrdcl_pelican.Status.Laws.{IsConsistent, http_status_convert-IsConsistent}

http_status_convert-IsConsistent_example : IsConsistent (Status.http_status_convert 404)
http_status_convert-IsConsistent_example = http_status_convert-IsConsistent 404
