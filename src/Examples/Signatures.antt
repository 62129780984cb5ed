-- ===== src/Examples/Signatures.antt =====
-- A request that is signed at 7 and verified at 9.
use tugtainer.Base.{
  ◌≡◌, refl, ◌++◌, true, false, none, some, Text, Dict, codes, ◌==◌, is_empty, arith, if◌then◌else◌,
}
use tugtainer.Exec.{value}
use tugtainer.Base.{decimal, digits, pos}
use tugtainer.Signature.{Crypto, get_signature_headers, get_req_signature, verify_signature_headers}
use tugtainer.Signature.Verified.{
  verify_signature_headers-get_signature_headers, verify_signature_headers_moved,
}

-- A code that shows the key, and the one number that is read.
abbrev pub crypto : Crypto
crypto = record {
  Object = Text;
  is_falsy = λ o. is_empty o;
  dumps = λ o. o;
  encoded_hmac = λ key message. key ++ message;
  int_of = λ t. if t == codes "7" then some (pos 7) else none;
}

is_signed :
    is_empty (
      get_req_signature crypto
        (codes "k")
        (pos 7)
        (codes "get")
        (codes "/")
        none
        (some (codes "p")))
    ≡ false
unfolding get_req_signature
is_signed = refl

pub is_read : (if decimal 7 == codes "7" then some (pos 7) else none) ≡ some (pos 7)
unfolding decimal digits ◌==◌
is_read = refl

verify_signature_headers-get_signature_headers_example :
    verify_signature_headers crypto
      (some (codes "k"))
      5
      9
      (get_signature_headers crypto
        (some (codes "k"))
        7
        (codes "get")
        (codes "/")
        none
        (some (codes "p")))
      (codes "get")
      (codes "/")
      none
      (some (codes "p"))
    ≡ value true
verify_signature_headers-get_signature_headers_example =
    verify_signature_headers-get_signature_headers crypto (codes "k") 5 7 9 (codes "get")
      (codes "/") none (some (codes "p")) refl is_signed is_read (omega arith) (omega arith)

abbrev signed_headers : Dict Text
signed_headers =
    get_signature_headers crypto (some (codes "k")) 7 (codes "get") (codes "/") none
      (some (codes "p"))

verify_signature_headers_moved_example :
    verify_signature_headers crypto
      (some (codes "k"))
      5
      9
      signed_headers
      (codes "get")
      (codes "/")
      (some (codes "p"))
      none
    ≡ verify_signature_headers crypto
        (some (codes "k"))
        5
        9
        signed_headers
        (codes "get")
        (codes "/")
        none
        (some (codes "p"))
verify_signature_headers_moved_example =
    verify_signature_headers_moved crypto (some (codes "k")) 5 9 signed_headers (codes "get")
      (codes "/") (codes "p")
