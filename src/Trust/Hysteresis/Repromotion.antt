-- ===== src/Trust/Hysteresis/Repromotion.antt =====
-- What a demoted candidate of trust.py must show before it is trusted again.
use predictive_autoscaler.Prelude.{
  ℕ, ◌+◌, ◌*◌, ◌≤◌, ◌<◌, ◌≡◌, refl, sym, ap, ◌∙◌, subst, Bool, true, false, Option, none, some,
  List, [], ◌∷◌, arith, leb, ltb, ◌&&◌, if◌then◌else◌, Bool-cases, inl, inr,
}
use predictive_autoscaler.Trust.Types.{hour}
use predictive_autoscaler.Trust.Candidate.{TrustSettings}
use predictive_autoscaler.Trust.Hysteresis.{
  Hysteresis, Evaluation, step, step_own, own_state, promote, since, held_long,
}

-- The newest evaluations, back to one at time t, in which the gates held without a break.
pub data Unbroken (t : ℕ) : List Evaluation → Type 0 where
  first :
      (e : Evaluation) (es : List Evaluation)
      → e.gates_ok ≡ true
      → e.now_s ≡ t
      → Unbroken t (e ∷ es)
  more :
      (e : Evaluation) {es : List Evaluation}
      → e.gates_ok ≡ true
      → Unbroken t es
      → Unbroken t (e ∷ es)

-- A candidate demoted at time d with b gate bounds, and the evaluations since, the newest first, none
-- of which has trusted it.
pub data Degraded (s : TrustSettings) (d b : ℕ) : List Evaluation → Hysteresis → Type 0 where
  demoted :
      (h : Hysteresis)
      → h.trusted ≡ false
      → h.ever_trusted ≡ true
      → h.demoted_at_s ≡ some d
      → h.bounds_at_demotion ≡ b
      → h.gates_ok_since_s ≡ none
      → Degraded s d b [] h
  waited :
      (e : Evaluation) {es : List Evaluation} {h k : Hysteresis}
      → Degraded s d b es h
      → own_state h e ≡ h
      → k ≡ step h e s
      → k.trusted ≡ false
      → Degraded s d b (e ∷ es) k

-- What such a state remembers.
record Remembers (d b : ℕ) (es : List Evaluation) (h : Hysteresis) : Type 0 where
  untrusted : h.trusted ≡ false
  ever : h.ever_trusted ≡ true
  demoted_at : h.demoted_at_s ≡ some d
  bounds : h.bounds_at_demotion ≡ b
  unbroken : (t : ℕ) → h.gates_ok_since_s ≡ some t → Unbroken t es

since-Unbroken :
    (e : Evaluation) (es : List Evaluation) (o : Option ℕ)
    → e.gates_ok ≡ true
    → ((t : ℕ) → o ≡ some t → Unbroken t es)
    → Unbroken (since o e.now_s) (e ∷ es)
since-Unbroken e es none g h = first e es g refl
since-Unbroken e es (some t) g h = more e g (h t refl)

-- The test of a new promotion of a candidate demoted at d with b bounds.
abbrev earned : ℕ → ℕ → ℕ → Evaluation → TrustSettings → Bool
earned d b t e s =
    (leb (t + s.repromotion_hours * hour) e.now_s && ltb d e.now_s)
    && leb (b + s.repromotion_windows) e.bounds

step_own-failed :
    (h : Hysteresis) (e : Evaluation) (s : TrustSettings)
    → h.trusted ≡ false
    → e.gates_ok ≡ false
    → step_own h e s ≡ record h { gates_ok_since_s = none }
unfolding step_own
step_own-failed h e s u g = simp (u, g)

step_own-passed :
    (d b : ℕ) (es : List Evaluation) (h : Hysteresis) (e : Evaluation) (s : TrustSettings)
    → Remembers d b es h
    → e.gates_ok ≡ true
    → step_own h e s ≡ (
        if earned d b (since h.gates_ok_since_s e.now_s) e s
        then record h { gates_ok_since_s = some (since h.gates_ok_since_s e.now_s); trusted = true }
        else record h { gates_ok_since_s = some (since h.gates_ok_since_s e.now_s) })
unfolding step_own promote held_long
step_own-passed d b es h e s r g = simp (r.untrusted, g, r.ever, r.demoted_at, r.bounds)

step_own-Remembers :
    (d b : ℕ) (es : List Evaluation) (h : Hysteresis) (e : Evaluation) (s : TrustSettings)
    → Remembers d b es h
    → (step_own h e s).trusted ≡ false
    → Remembers d b (e ∷ es) (step_own h e s)
step_own-Remembers d b es h e s r u = elim (Bool-cases e.gates_ok) [
  | inr g ↦ rw (step_own-failed h e s r.untrusted g) (record {
    untrusted = r.untrusted;
    ever = r.ever;
    demoted_at = r.demoted_at;
    bounds = r.bounds;
    unbroken = λ t q. cc;
  })
  | inl g ↦
      let t = since h.gates_ok_since_s e.now_s in
      let passed = step_own-passed d b es h e s r g in
      elim (Bool-cases (earned d b t e s)) [
        | inl c ↦
            let trusted_now : step_own h e s
                ≡ record h { gates_ok_since_s = some t; trusted = true } =
              rw c at passed in
            cc (trusted_now, ap (λ (k : Hysteresis). k.trusted) trusted_now, u)
        | inr c ↦
            let waits : step_own h e s ≡ record h { gates_ok_since_s = some t } = rw c at passed in
            rw waits (record {
              untrusted = r.untrusted;
              ever = r.ever;
              demoted_at = r.demoted_at;
              bounds = r.bounds;
              unbroken = λ t' q.
                  let same : t ≡ t' = cc in
                  subst (λ x. Unbroken x (e ∷ es)) same
                    (since-Unbroken e es h.gates_ok_since_s g r.unbroken);
            })
      ]
]

Degraded-Remembers :
    (s : TrustSettings) (d b : ℕ) (es : List Evaluation) (h : Hysteresis)
    → Degraded s d b es h
    → Remembers d b es h
unfolding step
Degraded-Remembers s d b es h (demoted _ u v w x y) = record {
  untrusted = u;
  ever = v;
  demoted_at = w;
  bounds = x;
  unbroken = λ t q. cc;
}
Degraded-Remembers s d b es h (waited e {es = fs} {h = k} g own is u) =
    let stepped : h ≡ step_own k e s = is ∙ ap (λ j. step_own j e s) own in
    rw stepped (step_own-Remembers d b fs k e s (Degraded-Remembers s d b fs k g) (rw stepped at u))

-- Once demoted, a candidate is trusted again only after its gates have held, in every evaluation, for
-- the hours that the settings ask for, later than the demotion, and with as many new gate bounds as
-- they ask for.
pub Degraded-repromotion :
    (s : TrustSettings) (d b : ℕ) (es : List Evaluation) (h : Hysteresis) (e : Evaluation)
    → Degraded s d b es h
    → own_state h e ≡ h
    → (step h e s).trusted ≡ true
    → (t : ℕ) × Unbroken t (e ∷ es)
      × (t + s.repromotion_hours * hour ≤ e.now_s)
      × (d < e.now_s)
      × (b + s.repromotion_windows ≤ e.bounds)
unfolding step
Degraded-repromotion s d b es h e g own trusted =
    let r = Degraded-Remembers s d b es h g in
    let stepped : (step_own h e s).trusted ≡ true =
      ap (λ k. (step_own k e s).trusted) (sym own) ∙ trusted in
    elim (Bool-cases e.gates_ok) [
      | inr f ↦
          let failed = ap (λ (k : Hysteresis). k.trusted) (step_own-failed h e s r.untrusted f) in
          cc (failed, stepped, r.untrusted)
      | inl ok_now ↦
          let t = since h.gates_ok_since_s e.now_s in
          let passed = step_own-passed d b es h e s r ok_now in
          elim (Bool-cases (earned d b t e s)) [
            | inl c ↦ (
              t,
              since-Unbroken e es h.gates_ok_since_s ok_now r.unbroken,
              ground (arith, c),
              ground (arith, c),
              ground (arith, c),
            )
            | inr c ↦
                let waits : step_own h e s ≡ record h { gates_ok_since_s = some t } =
                  rw c at passed in
                cc (ap (λ (k : Hysteresis). k.trusted) waits, stepped, r.untrusted)
          ]
    ]
