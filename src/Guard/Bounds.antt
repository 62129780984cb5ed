-- ===== src/Guard/Bounds.antt =====
-- The restricted networks of backend/const.py as ranges of numbers.
use tugtainer.Base.{
  ℕ, ◌+◌, ◌*◌, ◌^◌, ◌≡◌, refl, arith, Bool, true, false, not, ◌&&◌, ◌||◌, List, [], ◌∷◌, ltb, leb,
  any, all,
}
use tugtainer.Guard.Networks.{Address, v4, v6, is_in, is_in_any}
use tugtainer.Guard.{restricted_networks}

abbrev between : ℕ → ℕ → ℕ → Bool
between lo hi a = leb lo a && ltb a hi

-- 0/8, 10/8, 100.64/10, 127/8, 169.254/16, 172.16/12, 192.168/16, and from 224.0.0.0 on.
abbrev pub unrestricted4 : ℕ → Bool
unrestricted4 a =
    not (between 0 0x01000000 a)
    && (not (between 0x0a000000 0x0b000000 a)
        && (not (between 0x64400000 0x64800000 a)
            && (not (between 0x7f000000 0x80000000 a)
                && (not (between 0xa9fe0000 0xa9ff0000 a)
                    && (not (between 0xac100000 0xac200000 a)
                        && (not (between 0xc0a80000 0xc0a90000 a) && not (leb 0xe0000000 a)))))))

-- ::, ::1, ::ffff:0:0/96, 100::/64, 2001:db8::/32, 2002::/16, fc00::/7, fe80::/10.
abbrev pub unrestricted6 : ℕ → Bool
unrestricted6 a =
    not (leb a 1)
    && (not (between 0xffff_0000_0000 0x1_0000_0000_0000 a)
        && (not (between (0x100 * 2 ^ 112) (0x100 * 2 ^ 112 + 2 ^ 64) a)
            && (not (between (0x2001_0db8 * 2 ^ 96) (0x2001_0db9 * 2 ^ 96) a)
                && (not (between (0x2002 * 2 ^ 112) (0x2003 * 2 ^ 112) a)
                    && (not (between (0xfc00 * 2 ^ 112) (0xfe00 * 2 ^ 112) a)
                        && not (between (0xfe80 * 2 ^ 112) (0xfec0 * 2 ^ 112) a))))))

abbrev pub is_unrestricted : Address → Bool
is_unrestricted (v4 a) = unrestricted4 a
is_unrestricted (v6 a) = unrestricted6 a

-- An address of `ipaddress` has 32 or 128 bits.
abbrev pub is_address : Address → Bool
is_address (v4 a) = ltb a (2 ^ 32)
is_address (v6 a) = ltb a (2 ^ 128)

restricted_v4 :
    (a : ℕ) → ltb a (2 ^ 32) ≡ true → is_in_any restricted_networks (v4 a) ≡ not (unrestricted4 a)
unfolding is_in_any any is_in
restricted_v4 a h = ground arith

restricted_v6 :
    (a : ℕ) → ltb a (2 ^ 128) ≡ true → is_in_any restricted_networks (v6 a) ≡ not (unrestricted6 a)
unfolding is_in_any any is_in
restricted_v6 a h = ground arith

-- An address is in a restricted network exactly when the test above of its ranges
-- fails.
pub is_in_any-restricted_networks :
    (a : Address) → is_address a ≡ true → is_in_any restricted_networks a ≡ not (is_unrestricted a)
is_in_any-restricted_networks (v4 a) h = restricted_v4 a h
is_in_any-restricted_networks (v6 a) h = restricted_v6 a h

not-and : (a b : Bool) → (not a || not b) ≡ not (a && b)
not-and true b = refl
not-and false b = refl

pub any-restricted_networks :
    (l : List Address)
    → all is_address l ≡ true
    → any (is_in_any restricted_networks) l ≡ not (all is_unrestricted l)
unfolding any all
any-restricted_networks [] h = refl
any-restricted_networks (a ∷ l) h =
    rw (is_in_any-restricted_networks a (ground arith), any-restricted_networks l (ground arith))
      (not-and (is_unrestricted a) (all is_unrestricted l))
