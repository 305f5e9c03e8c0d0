-- ===== src/Risk/Fusion/Valid.antt =====
-- The range of signals and of the subscores made of them.
use email_analysis_agent.Prelude.{
  ℕ, ◌+◌, ◌*◌, ◌≤◌, ◌≡◌, refl, Bool, true, ◌&&◌, String, Option, none, some, List, [], ◌∷◌, ◌++◌,
  ltb, leb, ◌==◌, string_eq, nat_eq, if◌then◌else◌, map, keep_if, length, arith, All, All-append,
  length-append, length-keep_if-le, Bool-cases, inl, inr,
}
use email_analysis_agent.Risk.Fusion.Models.{
  Domain, Signal, Auth, Transmission, Intel, MediaEvidence, Content, UrlResult, Correlation,
}
use email_analysis_agent.Risk.Fusion.Signals.{
  full, absent, signal, flag, graded, dmarc_signal, spf_signal, dkim_signal, arc_signal, age_signal,
  whois_age, ocr_signal, qr_signal, media_signals, normalize_auth_signals,
  normalize_transmission_signals, normalize_threat_intel_signals, normalize_content_signals,
  normalize_media_signals, normalize_url_signals, normalize_correlation_signals, Strings,
}
use email_analysis_agent.Risk.Fusion.Vector.{
  Ratio, is_evaluated, status_evaluated, total_weight, of_domain, subscore, domains, Analyses,
  all_signals, fuse_signals,
}

-- A score is at most one; a signal that was evaluated has weight, and any other counts for nothing.
unfoldable pub is_sound : Signal → Bool
is_sound s =
    leb s.normalized_score full
    && (if is_evaluated s.status
        then ltb 0 s.weight
        else s.normalized_score == 0 && s.weight == 0 && s.confidence == 0)

abbrev pub Sound : Signal → Type 0
Sound s = is_sound s ≡ true

-- A list of signals of a domain: so many, and all sound.
abbrev pub SoundList : ℕ → List Signal → Type 0
SoundList n signals = All Sound signals × (length signals ≡ n)

auth-Sound :
    (upper : String → String) (a : Option Auth) → SoundList 4 (normalize_auth_signals upper a)
unfolding normalize_auth_signals is_sound absent is_evaluated dmarc_signal spf_signal dkim_signal
    arc_signal signal
auth-Sound upper none = ((refl, (refl, (refl, (refl, tt)))), refl)
auth-Sound upper (some auth) =
    ((ground arith, (ground arith, (ground arith, (ground arith, tt)))), refl)

transmission-Sound : (t : Option Transmission) → SoundList 4 (normalize_transmission_signals t)
unfolding normalize_transmission_signals is_sound absent is_evaluated flag graded signal
transmission-Sound none = ((refl, (refl, (refl, (refl, tt)))), refl)
transmission-Sound (some t) =
    ((ground arith, (ground arith, (ground arith, (ground arith, tt)))), refl)

age-Sound : (age : Option ℕ) → Sound (age_signal age)
unfolding age_signal is_sound absent is_evaluated signal
age-Sound none = refl
age-Sound (some age) = ground arith

intel-Sound : (i : Option Intel) → SoundList 2 (normalize_threat_intel_signals i)
unfolding normalize_threat_intel_signals is_sound absent is_evaluated signal
intel-Sound none = ((refl, (refl, tt)), refl)
intel-Sound (some i) = ((ground arith, (age-Sound (whois_age none i.enriched_targets), tt)), refl)

content-Sound : (c : Option Content) → SoundList 4 (normalize_content_signals c)
unfolding normalize_content_signals is_sound absent is_evaluated flag graded signal
content-Sound none = ((refl, (refl, (refl, (refl, tt)))), refl)
content-Sound (some c) = ((ground arith, (ground arith, (ground arith, (ground arith, tt)))), refl)

module _ (str : Strings) where
  ocr-Sound : (m : MediaEvidence) → Sound (ocr_signal str m)
  unfolding ocr_signal is_sound absent is_evaluated flag signal
  ocr-Sound m = ground arith

  qr-Sound : (m : MediaEvidence) → Sound (qr_signal str m)
  unfolding qr_signal is_sound absent is_evaluated signal
  qr-Sound m = ground arith

  media_signals-Sound : (m : Option MediaEvidence) → SoundList 2 (media_signals str m)
  unfolding media_signals is_sound absent is_evaluated
  media_signals-Sound none = ((refl, (refl, tt)), refl)
  media_signals-Sound (some m) = ((ocr-Sound m, (qr-Sound m, tt)), refl)

  media-Sound : (c : Option Content) → SoundList 2 (normalize_media_signals str c)
  unfolding normalize_media_signals
  media-Sound none = media_signals-Sound none
  media-Sound (some c) = media_signals-Sound c.media_evidence

url-Sound : (u : Option UrlResult) → SoundList 3 (normalize_url_signals u)
unfolding normalize_url_signals is_sound absent is_evaluated flag signal
url-Sound none = ((refl, (refl, (refl, tt))), refl)
url-Sound (some u) = ((ground arith, (ground arith, (ground arith, tt))), refl)

correlation-Sound : (c : Option Correlation) → SoundList 2 (normalize_correlation_signals c)
unfolding normalize_correlation_signals is_sound absent is_evaluated flag graded signal
correlation-Sound none = ((refl, (refl, tt)), refl)
correlation-Sound (some c) = ((ground arith, (ground arith, tt)), refl)

append-Sound :
    (m n : ℕ) (xs ys : List Signal) → SoundList m xs → SoundList n ys → SoundList (m + n) (xs ++ ys)
append-Sound m n xs ys (hx, lx) (hy, ly) =
    (All-append Sound xs ys hx hy, omega (arith, length-append xs ys, lx, ly))

all-Sound : (str : Strings) (a : Analyses) → SoundList 21 (all_signals str a)
unfolding all_signals
all-Sound str a =
    let s₁ = normalize_auth_signals str.upper a.auth in
    let s₂ = normalize_transmission_signals a.transmission in
    let s₃ = normalize_threat_intel_signals a.intel in
    let s₄ = normalize_content_signals a.content_res in
    let s₅ = normalize_media_signals str a.content_res in
    let s₆ = normalize_url_signals a.url_res in
    let s₇ = normalize_correlation_signals a.correlation_res in
    let h₂ =
      append-Sound 4 4 s₁ s₂ (auth-Sound str.upper a.auth) (transmission-Sound a.transmission) in
    let h₃ = append-Sound 8 2 (s₁ ++ s₂) s₃ h₂ (intel-Sound a.intel) in
    let h₄ = append-Sound 10 4 (s₁ ++ s₂ ++ s₃) s₄ h₃ (content-Sound a.content_res) in
    let h₅ = append-Sound 14 2 (s₁ ++ s₂ ++ s₃ ++ s₄) s₅ h₄ (media-Sound str a.content_res) in
    let h₆ = append-Sound 16 3 (s₁ ++ s₂ ++ s₃ ++ s₄ ++ s₅) s₆ h₅ (url-Sound a.url_res) in
    append-Sound 19 2 (s₁ ++ s₂ ++ s₃ ++ s₄ ++ s₅ ++ s₆) s₇ h₆ (correlation-Sound a.correlation_res)

-- A ratio between zero and so much, with a denominator.
abbrev pub Within : ℕ → Ratio → Type 0
Within top (n, d) = (n ≤ top * d) × (1 ≤ d)

subscore-Within :
    (evaluated : List Signal) (domain : Domain) → Within full (subscore evaluated domain)
unfolding subscore
subscore-Within evaluated domain =
    let w = total_weight (keep_if (of_domain domain) evaluated) in
    elim (Bool-cases (ltb 0 w)) [
      | inl weighed ↦ rw (subscore, weighed) (omega arith, ground (arith, weighed))
      | inr weightless ↦ rw (subscore, weightless) (omega arith, omega arith)
    ]

subscores-Within :
    (evaluated : List Signal) (ds : List Domain) → All (Within full) (map (subscore evaluated) ds)
subscores-Within evaluated [] = tt
subscores-Within evaluated (d ∷ ds) = (subscore-Within evaluated d, subscores-Within evaluated ds)

-- Whatever the analyses say, and whichever of them are missing, the fusion makes 21 signals, each with
-- a score of at most one, of which those that were not evaluated have no score, no weight and no
-- confidence; the subscore of every domain is between zero and one, and so is the completeness.
pub fuse_signals-Sound :
    (str : Strings) (a : Analyses)
    → let v = fuse_signals str a in
      All Sound v.signals
      × (length v.signals ≡ 21)
      × All (Within full) v.domain_subscores
      × Within 1 v.completeness_ratio
unfolding fuse_signals
fuse_signals-Sound str a =
    let (sound, size) = all-Sound str a in
    let evaluated = keep_if status_evaluated (all_signals str a) in
    (
      sound,
      size,
      subscores-Within evaluated domains,
      ground (arith, size, length-keep_if-le status_evaluated (all_signals str a)),
    )
