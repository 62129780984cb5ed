-- ===== src/Examples/Guards.antt =====
-- A URL with one allowed address beside a private one, and a notification.
use tugtainer.Base.{
  ◌≡◌, ◌↔◌, refl, true, false, ◌&&◌, ◌||◌, none, some, [], ◌∷◌, Text, codes, elem, any, all,
  is_empty, strip,
}
use tugtainer.Guard.Networks.{v4, net4, is_in, is_in_any}
use tugtainer.Guard.Bounds.{is_unrestricted, is_address}
use tugtainer.Guard.{Names, passed, endpoint_of, resolved, validate_url_against_ssrf}
use tugtainer.Guard.Callers.{
  fine, is_blocked, splitlines, stripped, validate_notification_urls_against_ssrf,
}
use tugtainer.Guard.Passed.{is_any, validate_url_against_ssrf_passed}
use tugtainer.Notify.{Outside, Message, rendered, delivered, any_blocked, send_check_notification}
use tugtainer.Notify.Guarded.{send_check_notification_guarded}

-- 10.1.2.3 and 192.168.0.1.
abbrev names : Names
names = record {
  urlparse = λ url. some (record { hostname = some url; port = some none });
  ip_address = λ s. none;
  resolve_a = λ s. v4 0x0a010203 ∷ v4 0xc0a80001 ∷ [];
  resolve_aaaa = λ s. [];
}

abbrev host : Text
host = codes "agent"

addresses : all is_address (resolved names host) ≡ true
unfolding all resolved
addresses = refl

validate_url_against_ssrf_passed_example :
    (validate_url_against_ssrf names (net4 0x0a000000 8 ∷ []) [] host ≡ passed) ↔ (
      (elem (endpoint_of host none) []
        || (any (is_in_any (net4 0x0a000000 8 ∷ [])) (resolved names host)
            || is_any (resolved names host) && all is_unrestricted (resolved names host)))
      ≡ true)
validate_url_against_ssrf_passed_example =
    validate_url_against_ssrf_passed names (net4 0x0a000000 8 ∷ []) [] host host none refl refl
      addresses

-- One address of the host is in an allowed network: the other does not matter.
mixed_passes : validate_url_against_ssrf names (net4 0x0a000000 8 ∷ []) [] host ≡ passed
unfolding validate_url_against_ssrf any is_in_any is_in elem
mixed_passes = refl

abbrev outside : Outside
outside = record {
  render = λ any_worthy template results. rendered template;
  async_notify = λ title body urls. delivered;
}

abbrev message : Message
message = record { title = codes "t"; body = codes "b"; urls = codes "x" ∷ codes "y" ∷ [] }

abbrev two_lines : Text
two_lines = codes "x\n y"

asked :
    (send_check_notification names
      (net4 0x0a000000 8 ∷ [])
      []
      outside
      (some (codes "t"))
      none
      none
      []
      none
      (some (some (codes "b")))
      (some (some two_lines))).asked
    ≡ some message
unfolding send_check_notification any validate_url_against_ssrf is_in_any is_in elem is_blocked
    any_blocked strip
asked = refl

send_check_notification_guarded_example :
    (text : Text) × (some two_lines ≡ some text)
    × (message.urls ≡ stripped (splitlines text))
    × (is_empty (strip message.body) ≡ false)
    × (validate_notification_urls_against_ssrf names (net4 0x0a000000 8 ∷ []) [] text ≡ fine)
send_check_notification_guarded_example =
    send_check_notification_guarded names (net4 0x0a000000 8 ∷ []) [] outside (some (codes "t"))
      none none [] none (some (some (codes "b"))) (some (some two_lines)) message asked
