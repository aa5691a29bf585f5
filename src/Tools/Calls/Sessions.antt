-- ===== src/Tools/Calls/Sessions.antt =====
-- Which session a tool call uses, and when run_python drops it from the run's slot.
use henry.Prelude.{
  Bool, true, false, Bool-cases, inl, inr, Option, none, some, ◌≡◌, ◌≢◌, refl, ap, sym, subst, ◌∙◌,
  [], arith, if◌then◌else◌,
}
use henry.Prelude.Int.{ℤ}
use henry.Text.{Text, ◌===◌, ===_iff}
use henry.Text.Contains.{Contains, Contains-self, Contains-append_left}
use henry.Json.{Json}
use henry.Result.{Result, ok, err, session_not_found, session_destroyed}
use henry.SandboxTypes.{CellResult}
use henry.Tools.Slots.{forget_cached}
use henry.Tools.Format.{kernel_reset_notice, format_cell_result}
use henry.Tools.Format.Reports.{format_cell_result-reset}
use henry.Tools.Calls.{
  Run, Sandbox, Deps, forget_session, from_slot, after_start, session_for, missing_run_id,
  reset_reply, after_cell, run_python,
}

-- The sandbox says that the session is gone.
pub data IsGone (r : Result CellResult) : Type 0 where
  not_found : (m : Text) → r ≡ err (session_not_found m) → IsGone r
  destroyed : (m : Text) → r ≡ err (session_destroyed m) → IsGone r
  invalidated : (cell : CellResult) → r ≡ ok cell → cell.session_invalidated ≡ true → IsGone r

-- What is left in the slot: not the session that is gone, and any other that was there.
pub record IsForgotten {W : Type 0} (session : Text) (before after : Run W) : Type 0 where
  pub absent : after.cached ≢ some session
  pub others :
      (other : Text) → other ≢ session → before.cached ≡ some other → after.cached ≡ some other
  pub world_kept : after.world ≡ before.world

forget_cached-absent : (session : Text) (c : Option Text) → forget_cached session c ≢ some session
unfolding forget_cached
forget_cached-absent session none e = cc
forget_cached-absent session (some c) e = ground (arith, ===_iff c session)

forget_cached-others :
    (session : Text) (c : Option Text) (other : Text)
    → other ≢ session
    → c ≡ some other
    → forget_cached session c ≡ some other
unfolding forget_cached
forget_cached-others session none other n e = absurd (cc)
forget_cached-others session (some c) other n e = ground (arith, ===_iff c session)

reset_reply-Contains : Contains kernel_reset_notice reset_reply
unfolding reset_reply
reset_reply-Contains =
    Contains-append_left kernel_reset_notice _ kernel_reset_notice
      (Contains-self kernel_reset_notice)

module _ {W : Type 0} where
  forget_session-IsForgotten :
      (session : Text) (s : Run W) → IsForgotten session s (forget_session session s)
  unfolding forget_session
  forget_session-IsForgotten session s = record {
    absent = forget_cached-absent session s.cached;
    others = forget_cached-others session s.cached;
    world_kept = refl;
  }

  -- A reply that tells of the reset, with the session dropped from the slot.
  pub record Reset (session : Text) (s : Run W) (end : Result Text × Run W) : Type 0 where
    pub reply : Text
    pub returned : end.0 ≡ ok reply
    pub told : Contains kernel_reset_notice reply
    pub forgotten : IsForgotten session s end.1

  replied :
      (session : Text) (s : Run W) → Reset session s (ok reset_reply, forget_session session s)
  replied session s = record {
    reply = reset_reply;
    returned = refl;
    told = reset_reply-Contains;
    forgotten = forget_session-IsForgotten session s;
  }

  torn_down :
      (show : Json → Text) (session : Text) (cell : CellResult) (s : Run W)
      → cell.session_invalidated ≡ true
      → Reset session s (after_cell show session (ok cell, s))
  unfolding after_cell
  torn_down show session cell s h = record {
    reply = format_cell_result show cell;
    returned = refl;
    told = format_cell_result-reset show cell (inr h);
    forgotten =
        subst (λ (b : Bool). IsForgotten session s (if b then forget_session session s else s))
          (sym h) (forget_session-IsForgotten session s);
  }

  after_cell-Reset :
      (show : Json → Text) (session : Text) (r : Result CellResult) (s : Run W)
      → IsGone r
      → Reset session s (after_cell show session (r, s))
  unfolding after_cell
  after_cell-Reset show session r s (not_found m q) = rw q (replied session s)
  after_cell-Reset show session r s (destroyed m q) = rw q (replied session s)
  after_cell-Reset show session r s (invalidated cell q h) = rw q (torn_down show session cell s h)

  after_cell-kept :
      (show : Json → Text) (session : Text) (r : Result CellResult) (s : Run W)
      → ¬ IsGone r
      → (after_cell show session (r, s)).1 ≡ s
  after_cell-kept show session (ok cell) s g = unfold after_cell in rw (off cell g)
    where
      off : (cell : CellResult) → ¬ IsGone (ok cell) → cell.session_invalidated ≡ false
      off cell g = elim (Bool-cases cell.session_invalidated) [
        | inl e ↦ absurd (g (invalidated cell refl e))
        | inr e ↦ e
      ]
  after_cell-kept show session (err (session_not_found m)) s g = absurd (g (not_found m refl))
  after_cell-kept show session (err (session_destroyed m)) s g = absurd (g (destroyed m refl))
  after_cell-kept show session (err e) s g = unfold after_cell in refl

module _ {W : Type 0} (box : Sandbox W) (deps : Deps) where
  -- run_python has one session for its cell. If the sandbox says that this session is gone, by an
  -- exception or by the cell's result, the call returns a reply that holds the notice of the reset,
  -- and the slot no longer holds that session, while a session that took its place stays. In each
  -- other case the slot is left as the cell left it.
  pub run_python-Reset :
      (show : Json → Text) (code session : Text) (timeout_s : Option ℤ) (s s₁ s₂ : Run W)
      (r : Result CellResult)
      → session_for box deps s ≡ (ok session, s₁)
      → box.exec_cell session code timeout_s s₁ ≡ (r, s₂)
      → (IsGone r → Reset session s₂ (run_python box deps show code timeout_s s))
        × (¬ IsGone r → (run_python box deps show code timeout_s s).1 ≡ s₂)
  unfolding run_python
  run_python-Reset show code session timeout_s s s₁ s₂ r e c =
      rw (e, c) (after_cell-Reset show session r s₂, after_cell-kept show session r s₂)

  after_start-cached :
      (p : Result Text × W) (session : Text) (s₁ : Run W)
      → after_start p ≡ (ok session, s₁)
      → s₁.cached ≡ some session
  unfolding after_start
  after_start-cached (ok started, w) session s₁ e = ground arith
  after_start-cached (err x, w) session s₁ e = absurd (ground arith)

  from_slot-cached :
      (c : Option Text) (w : W) (session : Text) (s₁ : Run W)
      → from_slot box deps c w ≡ (ok session, s₁)
      → s₁.cached ≡ some session
  unfolding from_slot
  from_slot-cached (some found) w session s₁ e = ground arith
  from_slot-cached none w session s₁ e = after_start-cached _ session s₁ e

  session_for-cached :
      (s : Run W) (session : Text) (s₁ : Run W)
      → session_for box deps s ≡ (ok session, s₁)
      → (deps.run_id === [] ≡ false) × (s₁.cached ≡ some session)
  unfolding session_for
  session_for-cached s session s₁ e = elim (Bool-cases (deps.run_id === [])) [
    | inl b ↦ absurd (ground arith)
    | inr b ↦ (b, from_slot-cached s.cached s.world session s₁ (rw b at e))
  ]

  session_for-found :
      (s₁ : Run W) (session : Text)
      → deps.run_id === [] ≡ false
      → (c : Option Text) → c ≡ some session
      → (if deps.run_id === [] then (err missing_run_id, s₁) else from_slot box deps c s₁.world)
        ≡ (ok session, record { cached = some session; world = s₁.world })
  unfolding from_slot
  session_for-found s₁ session b c e = rw (b, e) refl

  -- A tool call that finds a session, or starts one, leaves it for the next call, which starts none.
  pub session_for-again :
      (s s₁ : Run W) (session : Text)
      → session_for box deps s ≡ (ok session, s₁)
      → session_for box deps s₁ ≡ (ok session, s₁)
  unfolding session_for
  session_for-again s s₁ session e =
      let (b, c) = session_for-cached s session s₁ e in
      session_for-found s₁ session b s₁.cached c
      ∙ ap (λ (c : Option Text). (ok session, record s₁ { cached = c })) (sym c)
