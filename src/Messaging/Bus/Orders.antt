-- ===== src/Messaging/Bus/Orders.antt =====
-- The invocations and the failures of handlers that run in any order.
use email_analysis_agent.Prelude.{
  ◌≡◌, refl, ap, ◌∙◌, Bool, List, [], ◌∷◌, if◌then◌else◌, arith, length, Bool-cases, inl, inr,
}
use mathlib.Core.Path.{subst}
use mathlib.Core.List.Permᴰ
use mathlib.Core.List.{Permᴰ}
use email_analysis_agent.Messaging.Subscriber.{Handler}
use email_analysis_agent.Messaging.Bus.{Event, Turn, starts, ends}

abbrev pub deliveries : Event → List Handler → List (Event × Handler)
deliveries event [] = []
deliveries event (h ∷ hs) = (event, h) ∷ deliveries event hs

-- The handlers that raise.
abbrev pub failing : (Handler → Event → Bool) → Event → List Handler → List Handler
failing raises event [] = []
failing raises event (h ∷ hs) =
    let rest = failing raises event hs in if raises h event then h ∷ rest else rest

-- The handlers that start, and those that end, in their orders.
abbrev pub started : List Turn → List Handler
started [] = []
started (starts h ∷ turns) = h ∷ started turns
started (ends h ∷ turns) = started turns

abbrev pub ended : List Turn → List Handler
ended [] = []
ended (starts h ∷ turns) = ended turns
ended (ends h ∷ turns) = h ∷ ended turns

pub deliveries-Perm :
    (event : Event) {hs hs' : List Handler}
    → Permᴰ hs hs'
    → Permᴰ (deliveries event hs) (deliveries event hs')
deliveries-Perm event Permᴰ.nil = Permᴰ.nil
deliveries-Perm event (Permᴰ.cons e p) =
    Permᴰ.cons (ap (λ h. (event, h)) e) (deliveries-Perm event p)
deliveries-Perm event (Permᴰ.swap e e') =
    Permᴰ.swap (ap (λ h. (event, h)) e) (ap (λ h. (event, h)) e')
deliveries-Perm event (Permᴰ.trans p q) =
    Permᴰ.trans (deliveries-Perm event p) (deliveries-Perm event q)

module _ (raises : Handler → Event → Bool) (event : Event) where
  failing-cons :
      (h : Handler) (hs hs' : List Handler)
      → Permᴰ (failing raises event hs) (failing raises event hs')
      → Permᴰ (failing raises event (h ∷ hs)) (failing raises event (h ∷ hs'))
  failing-cons h hs hs' p = elim (Bool-cases (raises h event)) [
    | inl bad ↦ rw bad (Permᴰ.cons refl p)
    | inr good ↦ rw good p
  ]

  failing-swap :
      (g h : Handler) (hs : List Handler)
      → Permᴰ (failing raises event (g ∷ h ∷ hs)) (failing raises event (h ∷ g ∷ hs))
  failing-swap g h hs = elim (Bool-cases (raises g event)) [
    | inl bad ↦ elim (Bool-cases (raises h event)) [
      | inl bad' ↦ rw (bad, bad') (Permᴰ.swap refl refl)
      | inr good ↦ rw (bad, good) (Permᴰ.refl _)
    ]
    | inr fine ↦ elim (Bool-cases (raises h event)) [
      | inl bad' ↦ rw (fine, bad') (Permᴰ.refl _)
      | inr good ↦ rw (fine, good) (Permᴰ.refl _)
    ]
  ]

  pub failing-Perm :
      {hs hs' : List Handler}
      → Permᴰ hs hs'
      → Permᴰ (failing raises event hs) (failing raises event hs')
  failing-Perm Permᴰ.nil = Permᴰ.nil
  failing-Perm (Permᴰ.cons {a = a} {l₁ = hs} {l₂ = hs'} e p) =
      subst (λ b. Permᴰ (failing raises event (a ∷ hs)) (failing raises event (b ∷ hs'))) e
        (failing-cons a hs hs' (failing-Perm p))
  failing-Perm (Permᴰ.swap {a = a} {b = b} {b' = b'} {l = l} e e') =
      subst (λ x. Permᴰ (failing raises event (a ∷ b ∷ l)) (failing raises event (x ∷ b' ∷ l))) e'
        (subst (λ y. Permᴰ (failing raises event (a ∷ b ∷ l)) (failing raises event (b ∷ y ∷ l))) e
          (failing-swap a b l))
  failing-Perm (Permᴰ.trans p q) = Permᴰ.trans (failing-Perm p) (failing-Perm q)

pub Perm-length : {hs hs' : List Handler} → Permᴰ hs hs' → length hs ≡ length hs'
Perm-length Permᴰ.nil = refl
Perm-length (Permᴰ.cons e p) = ground (arith, Perm-length p)
Perm-length (Permᴰ.swap e e') = refl
Perm-length (Permᴰ.trans p q) = Perm-length p ∙ Perm-length q
