-- ===== src/Feedback/Service/Spacing.antt =====
-- Feedback of one analyst on one incident is apart in time, and stays in its tenant.
use email_analysis_agent.Prelude.{
  ℕ, ◌+◌, ◌≤◌, ◌≡◌, refl, Bool, true, false, ◌&&◌, String, none, some, List, [], ◌∷◌, ◌++◌, ltb,
  ◌==◌, string_eq, if◌then◌else◌, arith, All, All-append, All-weaken, Bool-cases, Option-cases, inl,
  inr, eq_self, ◌⊎◌,
}
use email_analysis_agent.Feedback.Models.{FeedbackRecord, Analyst}
use email_analysis_agent.Feedback.Service.{
  Incident, Submission, is_recent, last_where, window_seconds, get_recent_analyst_feedback, World,
  accepted, incident_not_found, duplicate, record_for, submit_known, submit_feedback,
}

-- Is it feedback of the same analyst on the same incident?
unfoldable pub same_author : FeedbackRecord → FeedbackRecord → Bool
same_author r s =
    r.tenant_id == s.tenant_id && r.analyst_id == s.analyst_id && r.incident_id == s.incident_id

-- The first is by another, or is more than five minutes older than the second.
unfoldable pub is_apart : FeedbackRecord → FeedbackRecord → Bool
is_apart r s = if same_author r s then ltb (r.created_at + window_seconds) s.created_at else true

abbrev pub Apart : FeedbackRecord → FeedbackRecord → Type 0
Apart r s = is_apart r s ≡ true

-- Every record is apart from all later ones.
abbrev pub Spaced : List FeedbackRecord → Type 0
Spaced [] = Unit
Spaced (r ∷ records) = All (Apart r) records × Spaced records

append-Spaced :
    (records : List FeedbackRecord) (s : FeedbackRecord)
    → Spaced records
    → All (λ r. Apart r s) records
    → Spaced (records ++ s ∷ [])
append-Spaced [] s h a = (tt, tt)
append-Spaced (r ∷ records) s h a =
    (All-append (Apart r) records (s ∷ []) h.0 (a.0, tt), append-Spaced records s h.1 a.1)

last_where-none :
    (f : FeedbackRecord → Bool) (records : List FeedbackRecord)
    → last_where f records ≡ none
    → All (λ r. f r ≡ false) records
unfolding last_where
last_where-none f [] h = tt
last_where-none f (r ∷ records) h = elim (Option-cases (last_where f records)) [
  | inl nowhere ↦ (ground (arith, h, nowhere), last_where-none f records nowhere)
  | inr (x, found) ↦ absurd (ground (arith, h, found))
]

last_where-append :
    (f : FeedbackRecord → Bool) (records : List FeedbackRecord) (s : FeedbackRecord)
    → f s ≡ true
    → last_where f (records ++ s ∷ []) ≡ some s
unfolding last_where
last_where-append f [] s h = rw h refl
last_where-append f (r ∷ records) s h = rw (last_where, last_where-append f records s h) refl

module _ (w : World) where
  not_recent-Apart :
      (id : String) (inc : Incident) (sub : Submission) (caller : Analyst) (new_id : String)
      (now created : ℕ) (r : FeedbackRecord)
      → now ≤ created
      → is_recent caller.tenant_id caller.analyst_id id window_seconds now r ≡ false
      → Apart r (record_for w id inc sub caller new_id created)
  unfolding is_recent is_apart same_author record_for
  not_recent-Apart id inc sub caller new_id now created r order h = ground (arith, h, order)

  submit_known-Spaced :
      (id : String) (inc : Incident) (sub : Submission) (caller : Analyst) (new_id : String)
      (now created : ℕ) (records : List FeedbackRecord)
      → now ≤ created
      → Spaced records
      → Spaced ((submit_known w id inc sub caller new_id now created records).1)
  unfolding submit_known get_recent_analyst_feedback
  submit_known-Spaced id inc sub caller new_id now created records order h =
      let recent = is_recent caller.tenant_id caller.analyst_id id window_seconds now in
      let s = record_for w id inc sub caller new_id created in
      elim (Option-cases (last_where recent records)) [
        | inr (x, found) ↦ rw (submit_known, found) h
        | inl nowhere ↦
            let old : FeedbackRecord → Type 0 = λ r. recent r ≡ false in
            let away : FeedbackRecord → Type 0 = λ r. Apart r s in
            rw (submit_known, nowhere)
              (append-Spaced records s h (
                All-weaken old away
                  (λ r. not_recent-Apart id inc sub caller new_id now created r order) records
                  (last_where-none recent records nowhere)))
      ]

  submit-Spaced :
      (id : String) (sub : Submission) (caller : Analyst) (new_id : String) (now created : ℕ)
      (records : List FeedbackRecord)
      → now ≤ created
      → Spaced records
      → Spaced ((submit_feedback w id sub caller new_id now created records).1)
  unfolding submit_feedback
  submit-Spaced id sub caller new_id now created records order h =
      elim (Option-cases (w.get_incident id)) [
        | inl missing ↦ rw (submit_feedback, missing) h
        | inr (inc, found) ↦ elim (Bool-cases (inc.tenant_id == caller.tenant_id)) [
          | inl own ↦
              rw (submit_feedback, found, own)
                (submit_known-Spaced id inc sub caller new_id now created records order h)
          | inr foreign ↦ rw (submit_feedback, found, foreign) h
        ]
      ]

-- What a caller sends, with the id that it gets and the times that are read for it.
pub record Request : Type 0 where
  pub incident_id : String
  pub submission : Submission
  pub caller : Analyst
  pub new_id : String
  pub now : ℕ
  pub created : ℕ

abbrev pub request_result : World → Request → List FeedbackRecord → List FeedbackRecord
request_result w q records =
    (submit_feedback w q.incident_id q.submission q.caller q.new_id q.now q.created records).1

unfoldable pub submit_all : World → List Request → List FeedbackRecord → List FeedbackRecord
submit_all w [] records = records
submit_all w (q ∷ requests) records = submit_all w requests (request_result w q records)

-- The clock does not go back within a submission.
abbrev pub InTime : Request → Type 0
InTime q = q.now ≤ q.created

-- Whatever is submitted, one submission after another, in the storage a record of one analyst on one
-- incident is always more than five minutes later than each earlier one. The clock must not go back
-- between its two readings for one submission; between submissions it may.
pub submit_all-Spaced :
    (w : World) (requests : List Request) (records : List FeedbackRecord)
    → All InTime requests
    → Spaced records
    → Spaced (submit_all w requests records)
unfolding submit_all
submit_all-Spaced w [] records times h = h
submit_all-Spaced w (q ∷ requests) records times h =
    submit_all-Spaced w requests (request_result w q records) times.1 (
      submit-Spaced w q.incident_id q.submission q.caller q.new_id q.now q.created records times.0
        h)

now_recent :
    (w : World) (id : String) (inc : Incident) (sub : Submission) (caller : Analyst)
    (new_id : String) (created later : ℕ)
    → later ≤ created + window_seconds
    → is_recent caller.tenant_id caller.analyst_id id window_seconds later
        (record_for w id inc sub caller new_id created)
      ≡ true
unfolding is_recent record_for
now_recent w id inc sub caller new_id created later h =
    ground (arith, h, eq_self caller.tenant_id, eq_self caller.analyst_id, eq_self id)

-- After feedback was accepted, the same analyst's next feedback on the incident within five minutes is
-- refused with the id of the first, and nothing is stored.
pub submit_feedback-again :
    (w : World) (id : String) (first second : Submission) (caller : Analyst) (id₁ id₂ : String)
    (now created later created' : ℕ) (records : List FeedbackRecord) (r : FeedbackRecord)
    → (submit_feedback w id first caller id₁ now created records).0 ≡ accepted r
    → later ≤ created + window_seconds
    → let stored = (submit_feedback w id first caller id₁ now created records).1 in
      submit_feedback w id second caller id₂ later created' stored
      ≡ (duplicate r.feedback_id, stored)
unfolding submit_feedback submit_known get_recent_analyst_feedback
submit_feedback-again w id first second caller id₁ id₂ now created later created' records r done
      soon =
    elim (Option-cases (w.get_incident id)) [
      | inl missing ↦ absurd (ground (arith, done, missing))
      | inr (inc, found) ↦ elim (Bool-cases (inc.tenant_id == caller.tenant_id)) [
        | inr foreign ↦ absurd (ground (arith, done, found, foreign))
        | inl own ↦
            let recent = is_recent caller.tenant_id caller.analyst_id id window_seconds now in
            let recent' = is_recent caller.tenant_id caller.analyst_id id window_seconds later in
            let s = record_for w id inc first caller id₁ created in
            elim (Option-cases (last_where recent records)) [
              | inr (x, dup) ↦ absurd (ground (arith, done, found, own, dup))
              | inl nowhere ↦
                  let stays = now_recent w id inc first caller id₁ created later soon in
                  let last = last_where-append recent' records s stays in
                  ground (arith, done, found, own, nowhere, last)
            ]
      ]
    ]

-- Whether an incident is missing or belongs to another tenant makes no difference to a submission: it
-- is answered in the same way, and nothing is stored.
pub submit_feedback-foreign :
    (w : World) (id : String) (sub : Submission) (caller : Analyst) (new_id : String)
    (now created : ℕ) (records : List FeedbackRecord) (inc : Incident)
    → (w.get_incident id ≡ none)
      ⊎ ((w.get_incident id ≡ some inc) × ((inc.tenant_id == caller.tenant_id) ≡ false))
    → submit_feedback w id sub caller new_id now created records ≡ (incident_not_found, records)
unfolding submit_feedback
submit_feedback-foreign w id sub caller new_id now created records inc (inl missing) =
    rw (submit_feedback, missing) refl
submit_feedback-foreign w id sub caller new_id now created records inc (inr (found, foreign)) =
    rw (submit_feedback, found, foreign) refl
