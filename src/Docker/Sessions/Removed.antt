-- ===== src/Docker/Sessions/Removed.antt =====
-- What is left after a session is removed.
use henry.Prelude.{
  ℕ, ◌≡◌, subst, inl, inr, false, none, some, arith, ==_iff, if◌then◌else◌, Option-cases,
}
use henry.Text.{Text, ◌===◌, ===_iff}
use henry.Dict.{lookup, lookup-remove}
use henry.Result.{ok}
use henry.Docker.Sessions.{Sandbox, Session, Removal, tear_down, remove_session}
use henry.Docker.Sessions.Invariant.{Inv, tear_down-Inv}

-- The ids other than one are registered as they were.
abbrev pub SameBut : Text → Sandbox → Sandbox → Type 0
SameBut name w w' =
    (j : Text) → lookup j w'.sessions ≡ (if name === j then none else lookup j w.sessions)

remove_session-unknown :
    (w : Sandbox) (name : Text) (r : Removal)
    → lookup name w.sessions ≡ none
    → remove_session w name r ≡ (w, ok tt)
unfolding remove_session
remove_session-unknown w name r h = rw (h, remove_session)

remove_session-known :
    (w : Sandbox) (name : Text) (r : Removal) (a : ℕ) (s : Session)
    → lookup name w.sessions ≡ some a
    → w.heap a ≡ some s
    → (remove_session w name r).0 ≡ tear_down w name a s
unfolding remove_session
remove_session-known w name r a s h k = ground arith

tear_down-SameBut :
    (w : Sandbox) (name : Text) (a : ℕ) (s : Session)
    → lookup name w.sessions ≡ some a
    → s.destroyed ≡ false
    → SameBut name w (tear_down w name a s)
unfolding tear_down
tear_down-SameBut w name a s h d j = ground (arith, ==_iff a a, lookup-remove name j w.sessions)

-- Whatever Docker answers, removing a session keeps the invariant, and its id is then unknown; no
-- other id is touched.
pub remove_session_lem :
    (w : Sandbox) (name : Text) (r : Removal)
    → Inv w
    → Inv (remove_session w name r).0 × SameBut name w (remove_session w name r).0
remove_session_lem w name r v = elim (Option-cases (lookup name w.sessions)) [
  | inl e ↦ rw (remove_session-unknown w name r e) (v, λ j. ground (arith, ===_iff name j))
  | inr (a, e) ↦
      let (s, there, named, alive) = v.registered name a e in
      rw (remove_session-known w name r a s e there) (
        subst (λ n. Inv (tear_down w n a s)) named (tear_down-Inv w v a s there),
        tear_down-SameBut w name a s e alive,
      )
]
