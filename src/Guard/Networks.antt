-- ===== src/Guard/Networks.antt =====
-- Addresses and networks as `ipaddress` of the standard library has them, and RESTRICTED_NETWORKS of
-- backend/const.py.
use Prim.Native.Nat.{◌/◌, ◌^◌, ◌-◌}
use tugtainer.Base.{ℕ, ◌+◌, ◌*◌, Bool, false, List, [], ◌∷◌, eqb, any}

-- The version, and the bits as one number.
pub data Address : Type 0 where
  v4 v6 : ℕ → Address

-- The base and the length of the prefix.
pub data Network : Type 0 where
  net4 net6 : ℕ → ℕ → Network

-- `address in network`
unfoldable pub is_in : Address → Network → Bool
is_in (v4 a) (net4 base prefix) = eqb (a / 2 ^ (32 - prefix)) (base / 2 ^ (32 - prefix))
is_in (v6 a) (net6 base prefix) = eqb (a / 2 ^ (128 - prefix)) (base / 2 ^ (128 - prefix))
is_in (v4 a) (net6 base prefix) = false
is_in (v6 a) (net4 base prefix) = false

abbrev dotted : ℕ → ℕ → ℕ → ℕ → ℕ
dotted a b c d = a * 2 ^ 24 + b * 2 ^ 16 + c * 2 ^ 8 + d

-- The first group of sixteen bits, and the one after it.
abbrev grouped : ℕ → ℕ → ℕ
grouped a b = a * 2 ^ 112 + b * 2 ^ 96

abbrev pub restricted4 : List Network
restricted4 =
    net4 (dotted 127 0 0 0) 8
    ∷ net4 (dotted 0 0 0 0) 8
    ∷ net4 (dotted 10 0 0 0) 8
    ∷ net4 (dotted 172 16 0 0) 12
    ∷ net4 (dotted 192 168 0 0) 16
    ∷ net4 (dotted 169 254 0 0) 16
    ∷ net4 (dotted 100 64 0 0) 10
    ∷ net4 (dotted 224 0 0 0) 4
    ∷ net4 (dotted 240 0 0 0) 4
    ∷ net4 (dotted 255 255 255 255) 32
    ∷ []

abbrev pub restricted6 : List Network
restricted6 =
    net6 1 128
    ∷ net6 0 128
    ∷ net6 (grouped 0xfc00 0) 7
    ∷ net6 (grouped 0xfe80 0) 10
    ∷ net6 (0xffff * 2 ^ 32) 96
    ∷ net6 (grouped 0x2002 0) 16
    ∷ net6 (grouped 0x2001 0xdb8) 32
    ∷ net6 (grouped 0x100 0) 64
    ∷ []

-- `any(address in network for network in networks)`
unfoldable pub is_in_any : List Network → Address → Bool
unfolding is_in any
is_in_any networks a = any (is_in a) networks
