-- ===== src/Tests/Common.antt =====
-- The log queue and the links (src/common).
use cppvless.Common.{◌≡◌, refl, List, [], ◌∷◌, codes}
use cppvless.Tests.Data.{below}
use cppvless.Log.{new_logger, Section, enqueues, takes_batch, takes_dropped, run}
use cppvless.Log.Queue.{Keeps, run-Sublist}
use cppvless.Link.{url_encode}
use cppvless.Link.UrlDecode.{url_decode, url_decode-url_encode}

abbrev sections : List Section
sections =
    enqueues (codes "a")
    ∷ enqueues (codes "b")
    ∷ takes_batch
    ∷ enqueues (codes "c")
    ∷ takes_dropped
    ∷ []

run-Sublist_example : Keeps (codes "a" ∷ codes "b" ∷ codes "c" ∷ []) 0 (run new_logger sections)
run-Sublist_example = run-Sublist sections new_logger

url_decode-url_encode_example : url_decode (url_encode (codes "a b%c/~")) ≡ codes "a b%c/~"
url_decode-url_encode_example =
    url_decode-url_encode (codes "a b%c/~") (below 256 (codes "a b%c/~") refl)
