-- ===== src/Defines/Codes.antt =====
-- defines.Codes: the numbers of the codes that the layers name.
use bubot_co_ap.Prelude.{ℕ}

abbrev pub get : ℕ
get = 1

abbrev pub post : ℕ
post = 2

abbrev pub put : ℕ
put = 3

abbrev pub delete : ℕ
delete = 4

abbrev pub created : ℕ
created = 65

abbrev pub deleted : ℕ
deleted = 66

abbrev pub valid : ℕ
valid = 67

abbrev pub changed : ℕ
changed = 68

abbrev pub content : ℕ
content = 69

abbrev pub continue : ℕ
continue = 95

abbrev pub bad_request : ℕ
bad_request = 128

abbrev pub not_found : ℕ
not_found = 132

abbrev pub request_entity_incomplete : ℕ
request_entity_incomplete = 136

abbrev pub unsupported_content_format : ℕ
unsupported_content_format = 143

abbrev pub csm : ℕ
csm = 225

abbrev pub error_lower_bound : ℕ
error_lower_bound = 128

abbrev pub method_not_allowed : ℕ
method_not_allowed = 133

abbrev pub precondition_failed : ℕ
precondition_failed = 140

abbrev pub internal_server_error : ℕ
internal_server_error = 160
