-- ===== src/Ingestion/Dedup/Isolation.antt =====
-- Distinct messages have distinct keys, so no message can suppress another, of this or any tenant.
use email_analysis_agent.Prelude.{
  ℕ, ◌+◌, ◌*◌, ◌≡◌, Option, ◌∷◌, arith, nat_eq, list_eq, list_beq_iff,
}
use email_analysis_agent.Dict.{lookup-put}
use email_analysis_agent.Text.{Text, strip}
use email_analysis_agent.Uuid
use email_analysis_agent.Uuid.{Uuid, InRange}
use email_analysis_agent.Ingestion.Dedup.{
  second, Clock, Engine, effective_ttl, raw_seed, compute_dedup_key, fresh_record, is_duplicate,
  check_and_mark,
}

module _ (sha256 : Text → Text) (collision_free : (x y : Text) → sha256 x ≡ sha256 y → x ≡ y) where
  -- With a hash that has no collisions and identifiers in range, two messages have the same key
  -- only if they are of one tenant and one account and their identifiers agree without the white
  -- space around them.
  pub compute_dedup_key-injective :
      (t t' a a' : Uuid) (m m' : Text)
      → InRange t
      → InRange t'
      → InRange a
      → InRange a'
      → compute_dedup_key sha256 t a m ≡ compute_dedup_key sha256 t' a' m'
      → (t ≡ t') × (a ≡ a') × (strip m ≡ strip m')
  unfolding compute_dedup_key
  compute_dedup_key-injective t t' a a' m m' ht ht' ha ha' e =
      let (tenants, rest) =
        Uuid.text-append-injective t t' ht ht'
          (collision_free (raw_seed t a m) (raw_seed t' a' m') e) in
      let (accounts, rest') = Uuid.text-append-injective a a' ha ha' (tail_eq rest) in
      (tenants, accounts, tail_eq rest')
    where
      tail_eq : {c d : ℕ} {xs ys : Text} → c ∷ xs ≡ d ∷ ys → xs ≡ ys
      tail_eq e = cc

  -- With a hash that has no collisions and identifiers in range, checking one message, whether new
  -- or not, leaves what `is_duplicate` answers about any other message as it was.
  pub check-other :
      (s : Engine) (now later : Clock) (t t' a a' : Uuid) (m m' : Text) (ttl : Option ℕ)
      → InRange t
      → InRange t'
      → InRange a
      → InRange a'
      → ¬ ((t ≡ t') × (a ≡ a') × (strip m ≡ strip m'))
      → (is_duplicate sha256 (check_and_mark sha256 s now t a m ttl).0 later t' a' m').1
        ≡ (is_duplicate sha256 s later t' a' m').1
  unfolding is_duplicate check_and_mark
  check-other s now later t t' a a' m m' ttl ht ht' ha ha' other =
      let k = compute_dedup_key sha256 t a m in
      let k' = compute_dedup_key sha256 t' a' m' in
      let lasts = effective_ttl s ttl in
      let entry = fresh_record sha256 now lasts t a m in
      ground (
        arith,
        list_beq_iff k k',
        lookup-put k k' (entry, now.time + lasts * second) s.store,
        other,
        compute_dedup_key-injective t t' a a' m m' ht ht' ha ha',
      )
