-- ===== src/Notifications/Engine/Limits.antt =====
-- The sliding window of the rate limit.
use email_analysis_agent.Prelude.{
  ℕ, ◌+◌, ◌≤◌, ◌<◌, ◌≡◌, refl, Bool, true, List, [], ◌∷◌, ◌++◌, ltb, if◌then◌else◌, arith, length,
  keep_if, list_eq, nat_eq, eq_self, All,
}
use email_analysis_agent.Dict.{lookup-put}
use email_analysis_agent.Text.{Text}
use email_analysis_agent.Notifications.Models.{minute, Engine}
use email_analysis_agent.Notifications.Engine.{records_of, recent, check_rate_limit}

-- A run of checks of one tenant, with the times of those that are allowed.
unfoldable pub run : Engine → Text → ℕ → List ℕ → Engine × List ℕ
run e tenant limit [] = (e, [])
run e tenant limit (t ∷ ts) =
    let (e', allowed) = check_rate_limit e t tenant limit in
    let (e'', grants) = run e' tenant limit ts in (e'', if allowed then t ∷ grants else grants)

-- Less than a minute old.
abbrev pub fresh : ℕ → ℕ → Bool
fresh now ts = ltb now (ts + minute)

length-keep-keep :
    (t now : ℕ) (l : List ℕ)
    → t ≤ now
    → length (keep_if (fresh now) (keep_if (fresh t) l)) ≡ length (keep_if (fresh now) l)
length-keep-keep t now [] order = refl
length-keep-keep t now (x ∷ l) order = ground (arith, length-keep-keep t now l order)

length-keep-append :
    (now t : ℕ) (l : List ℕ)
    → length (keep_if (fresh now) (l ++ t ∷ []))
      ≡ (if fresh now t then length (keep_if (fresh now) l) + 1 else length (keep_if (fresh now) l))
length-keep-append now t [] = ground arith
length-keep-append now t (x ∷ l) = ground (arith, length-keep-append now t l)

check-recent :
    (e : Engine) (t now : ℕ) (tenant : Text) (limit : ℕ)
    → t ≤ now
    → length (recent (check_rate_limit e t tenant limit).0 now tenant) ≡ (
        if (check_rate_limit e t tenant limit).1
        then (if fresh now t
            then length (recent e now tenant) + 1
            else length (recent e now tenant))
        else length (recent e now tenant))
unfolding check_rate_limit recent records_of
check-recent e t now tenant limit order =
    let records = recent e t tenant in
    ground (
      arith,
      lookup-put tenant tenant records e.rate_limit_records,
      lookup-put tenant tenant (records ++ t ∷ []) e.rate_limit_records,
      eq_self tenant,
      length-keep-append now t records,
      length-keep-keep t now (records_of e tenant) order,
    )

abbrev pub Before : ℕ → ℕ → Type 0
Before now t = t ≤ now

run-recent :
    (e : Engine) (now : ℕ) (tenant : Text) (limit : ℕ) (times : List ℕ)
    → All (Before now) times
    → length (recent (run e tenant limit times).0 now tenant)
      ≡ length (recent e now tenant) + length (keep_if (fresh now) (run e tenant limit times).1)
unfolding run
run-recent e now tenant limit [] ok = ground arith
run-recent e now tenant limit (t ∷ ts) ok =
    let e' = (check_rate_limit e t tenant limit).0 in
    ground (arith, check-recent e t now tenant limit ok.0, run-recent e' now tenant limit ts ok.1)

-- After any checks of a tenant, none of them later than `now`, a check at `now` with the same limit
-- is allowed only if fewer than `limit` of those checks were allowed in the minute before.
pub run-window :
    (e : Engine) (now : ℕ) (tenant : Text) (limit : ℕ) (times : List ℕ)
    → All (Before now) times
    → (check_rate_limit (run e tenant limit times).0 now tenant limit).1 ≡ true
    → length (keep_if (fresh now) (run e tenant limit times).1) < limit
unfolding check_rate_limit
run-window e now tenant limit times ok allowed =
    ground (arith, run-recent e now tenant limit times ok)
