-- ===== src/Emit/StatusText.antt =====
-- packages/aot-transpiler/src/emit/status-text.ts.
use fearless.Base.{
  ℕ, Option, none, some, ◌&&◌, Str, codes, List, [], ◌∷◌, ◌==◌, leb, ltb, if◌then◌else◌,
}

-- `STATUS_TEXT`
abbrev pub status_texts : List (ℕ × Str)
status_texts =
    (100, codes "Continue")
    ∷ (101, codes "Switching Protocols")
    ∷ (200, codes "OK")
    ∷ (201, codes "Created")
    ∷ (202, codes "Accepted")
    ∷ (204, codes "No Content")
    ∷ (301, codes "Moved Permanently")
    ∷ (302, codes "Found")
    ∷ (303, codes "See Other")
    ∷ (304, codes "Not Modified")
    ∷ (307, codes "Temporary Redirect")
    ∷ (308, codes "Permanent Redirect")
    ∷ (400, codes "Bad Request")
    ∷ (401, codes "Unauthorized")
    ∷ (403, codes "Forbidden")
    ∷ (404, codes "Not Found")
    ∷ (405, codes "Method Not Allowed")
    ∷ (409, codes "Conflict")
    ∷ (422, codes "Unprocessable Entity")
    ∷ (500, codes "Internal Server Error")
    ∷ (502, codes "Bad Gateway")
    ∷ (503, codes "Service Unavailable")
    ∷ []

unfoldable pub text_at : ℕ → List (ℕ × Str) → Option Str
text_at code [] = none
text_at code ((n, text) ∷ texts) = if n == code then some text else text_at code texts

abbrev class_text : ℕ → Str
class_text code =
    if leb 200 code && ltb code 300
    then codes "OK"
    else if leb 300 code && ltb code 400
    then codes "Redirection"
    else if leb 400 code && ltb code 500
    then codes "Client Error"
    else if leb 500 code && ltb code 600
    then codes "Server Error"
    else codes "OK"

unfoldable pub status_text : ℕ → Str
unfolding text_at
status_text code = elim (text_at code status_texts) [ some text ↦ text | none ↦ class_text code ]
