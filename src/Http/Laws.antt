-- ===== src/Http/Laws.antt =====
-- The status line and the headers that are sent.
use tps.Base.{[], refl, ℕ, Str, Option, none, some, ◌≡◌, arith}
use tps.Http.{sent_header, has, sniffed, header_of, ResponseWriter, Sent, write_header, encode}

pub write_header_keeps :
    (w : ResponseWriter) (s : Sent) (code : ℕ)
    → w.sent ≡ some s
    → (write_header w code).sent ≡ some s
unfolding write_header
write_header_keeps w s code h = ground arith

pub encode_keeps :
    (w : ResponseWriter) (s : Sent) (text : Option Str)
    → w.sent ≡ some s
    → (encode w text).sent ≡ some s
unfolding encode
encode_keeps w s none h = h
encode_keeps w s (some text) h = ground arith

pub header_of-sniffed :
    (detect : Str → Str) (w : ResponseWriter)
    → sent_header w ≡ []
    → header_of detect w ≡ sniffed detect w.body
unfolding header_of has
header_of-sniffed detect w h = rw h refl
