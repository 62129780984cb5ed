-- ===== src/Guard/Callers.antt =====
-- The callers of the guard: `validate_agent_url_against_ssrf` of backend/modules/hosts/hosts_util.py, and
-- the URLs of notifications in backend/modules/settings/settings_util.py.
use tugtainer.Base.{
  ℕ, Bool, true, false, ◌&&◌, ◌||◌, List, [], ◌∷◌, Text, add, eqb, leb, is_empty, strip,
  if◌then◌else◌,
}
use tugtainer.Guard.Networks.{Network}
use tugtainer.Guard.{
  Names, Verdict, passed, rejected, UrlError, ssrf_error, validation_error, value_error,
  validate_url_against_ssrf,
}

-- How such a call ends: it returns, it raises `HTTPException` with a status, or another exception.
pub data Checked : Type 0 where
  fine : Checked
  http_exception : (status : ℕ) → Checked
  raised : UrlError → Checked

abbrev agent_checked : Verdict → Checked
agent_checked passed = fine
agent_checked (rejected ssrf_error) = http_exception 422
agent_checked (rejected validation_error) = http_exception 422
agent_checked (rejected value_error) = raised value_error

-- What ends a line for `splitlines`.
unfoldable pub is_line_end : ℕ → Bool
is_line_end c =
    leb 10 c && leb c 13 || (leb 28 c && leb c 30 || (eqb c 0x85 || (eqb c 0x2028 || eqb c 0x2029)))

abbrev push : ℕ → List Text → List Text
push c [] = (c ∷ []) ∷ []
push c (t ∷ ts) = (c ∷ t) ∷ ts

-- `s.splitlines()`, with an empty line more at "\r\n" and at the end, which the callers drop.
unfoldable pub splitlines : Text → List Text
unfolding is_line_end
splitlines [] = [] ∷ []
splitlines (c ∷ s) = if is_line_end c then [] ∷ splitlines s else push c (splitlines s)

-- `[line.strip() for line in lines if line.strip()]`
unfoldable pub stripped : List Text → List Text
stripped [] = []
stripped (line ∷ lines) =
    let rest = stripped lines in if is_empty (strip line) then rest else strip line ∷ rest

unfoldable pub as_set : List Text → List Text → List Text
as_set seen [] = seen
as_set seen (x ∷ l) = as_set (add x seen) l

unfoldable pub split_notification_urls : Text → List Text
unfolding splitlines stripped as_set
split_notification_urls urls = as_set [] (stripped (splitlines urls))

-- "ignores other exceptions because apprise URL may be invalid as standard URL"
unfoldable pub is_blocked : Verdict → Bool
is_blocked (rejected ssrf_error) = true
is_blocked _ = false

module _ (names : Names) (allowed_networks : List Network) (allowed_endpoints : List Text) where
  unfoldable pub validate_agent_url_against_ssrf : Text → Checked
  validate_agent_url_against_ssrf url =
      agent_checked (validate_url_against_ssrf names allowed_networks allowed_endpoints url)

  -- The loop over the URLs.
  unfoldable pub check_urls : List Text → Checked
  unfolding is_blocked
  check_urls [] = fine
  check_urls (url ∷ urls) =
      let rest = check_urls urls in
      if is_blocked (validate_url_against_ssrf names allowed_networks allowed_endpoints url)
      then http_exception 422
      else rest

  unfoldable pub validate_notification_urls_against_ssrf : Text → Checked
  unfolding check_urls split_notification_urls
  validate_notification_urls_against_ssrf urls = check_urls (split_notification_urls urls)
