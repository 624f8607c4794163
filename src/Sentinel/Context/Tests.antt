-- ===== src/Sentinel/Context/Tests.antt =====
-- Two requests with the same id of their own, the second of which fails.
use cat_sentinel.Prelude.{◌≡◌, Bool, true, List, [], ◌∷◌, ◌++◌, none, some, Outcome, ok, raise}
use cat_sentinel.Camera.Context.{Line, Response, request_done}
use cat_sentinel.Sentinel.Errors.{AppError, type_error}
use cat_sentinel.Sentinel.Context.Numbered.{Request, serve_all, answers, lines, serve_all-answers}

abbrev all_caught : AppError → Bool
all_caught e = true

abbrev fine : Outcome AppError Response
fine = ok (record { status = 200; x_request_id = none })

abbrev requests : List (Request all_caught)
requests =
    record { header = some "a"; generated = "u1"; answer = λ id. fine }
    ∷ record { header = some "a"; generated = "u2"; answer = λ id. raise type_error }
    ∷ []

abbrev log : List Line
log = request_done 200 "u0" ∷ []

requests_are_numbered :
    serve_all all_caught requests log
    ≡ (answers all_caught requests, log ++ lines all_caught requests)
requests_are_numbered = serve_all-answers all_caught requests log
