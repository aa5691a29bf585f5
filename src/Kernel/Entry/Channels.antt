-- ===== src/Kernel/Entry/Channels.antt =====
-- How the channels of a client are opened and closed in henry/sandbox/kernel_entry.py.
use henry.Prelude.{
  inl, inr, ℕ, zero, suc, ◌≡◌, refl, ap, ◌∙◌, Bool, true, false, Option, none, some, List, [], ◌∷◌,
  ◌++◌, if◌then◌else◌,
}
use henry.Text.{Text, codes, ◌===◌}
use henry.Result.{Error, Result, Result-cases, ok, err, message}
use henry.Kernel.Entry.{
  Call, make_directory, new_client, start_kernel, write_connection_file, manager_client,
  load_connection_file, start_channels, stop_channels, sleep, wait_for_ready, drain_execution,
  write_stdout, write_stderr, Steps, then_do, finally, World, perform, with_channels, startup_cell,
  started_up, stay, boot, connect, cell, exec, probe, failed, reported, ping, usage_error,
  run_payload, main_mode, main,
}

-- Whether the channels of a client are open.
pub data Phase : Type 0 where
  closed opened : Phase

abbrev then_phase : Option Phase → (Phase → Option Phase) → Option Phase
then_phase none later = none
then_phase (some p) later = later p

module _ (answer : Call → Result Text) where
  after_start : Result Text → Phase
  after_start (ok t) = opened
  after_start (err e) = closed

  -- A call is in its place if the channels are opened while they are closed, closed while they are open, and
  -- the kernel is used through them only in between.
  placed : Phase → Call → Option Phase
  placed closed start_channels = some (after_start (answer start_channels))
  placed closed stop_channels = none
  placed closed (wait_for_ready t) = none
  placed closed (drain_execution code t) = none
  placed opened start_channels = none
  placed opened stop_channels = some closed
  placed p call = some p

  pub all_placed : Phase → List Call → Option Phase
  unfolding placed
  all_placed p [] = some p
  all_placed p (call ∷ calls) = then_phase (placed p call) λ q. all_placed q calls

  placed-++ :
      (p q : Phase) (calls more : List Call)
      → all_placed p calls ≡ some q
      → all_placed p (calls ++ more) ≡ all_placed q more
  unfolding all_placed
  placed-++ p q [] more h = ap (λ r. all_placed r more) (cc)
  placed-++ p q (call ∷ calls) more h = onward (placed p call) (λ r. placed-++ r q calls more) h
    where
      onward :
          (o : Option Phase)
          → ((r : Phase)
              → all_placed r calls ≡ some q
              → all_placed r (calls ++ more) ≡ all_placed q more)
          → then_phase o (λ r. all_placed r calls) ≡ some q
          → then_phase o (λ r. all_placed r (calls ++ more)) ≡ all_placed q more
      onward (some r) later e = later r e
      onward none later e = absurd (cc)

module _ (world : World) where
  -- Wherever the steps end, the channels are as they were.
  Keeps : {A : Type 0} → Phase → Steps A → Type 0
  Keeps p m = all_placed world.answer p m.0 ≡ some p

  then_do-Keeps :
      {A B : Type 0} (p : Phase) (m : Steps A) (f : A → Steps B)
      → Keeps p m
      → ((a : A) → Keeps p (f a))
      → Keeps p (then_do m f)
  unfolding Keeps then_do
  then_do-Keeps p (calls, ok a) f h k = placed-++ world.answer p p calls (f a).0 h ∙ k a
  then_do-Keeps p (calls, err e) f h k = h

  finally-calls : {A B : Type 0} (m : Steps A) (n : Steps B) → (finally m n).0 ≡ m.0 ++ n.0
  unfolding finally
  finally-calls (calls, result) (more, ok b) = refl
  finally-calls (calls, result) (more, err e) = refl

  stopped :
      {A : Type 0} (body : Steps A)
      → Keeps opened body
      → all_placed world.answer opened (finally body (perform world stop_channels)).0 ≡ some closed
  unfolding Keeps perform all_placed placed
  stopped body h =
      ap (all_placed world.answer opened) (finally-calls body (perform world stop_channels))
      ∙ placed-++ world.answer opened opened body.0 (stop_channels ∷ []) h

  with_channels-Keeps :
      {A : Type 0} (body : Steps A) → Keeps opened body → Keeps closed (with_channels world body)
  unfolding Keeps with_channels then_do perform all_placed placed after_start
  with_channels-Keeps body h = elim (Result-cases (world.answer start_channels)) [
    | inl (t, e) ↦ rw e (rw e (stopped body h))
    | inr (x, e) ↦ rw e (rw e refl)
  ]

  -- A call that has nothing to do with the channels.
  perform-Keeps :
      (p : Phase) (call : Call) → placed world.answer p call ≡ some p → Keeps p (perform world call)
  unfolding Keeps perform all_placed
  perform-Keeps p call h = rw h refl

  quiet : {A : Type 0} (p : Phase) (r : Result A) → Keeps p ([], r)
  unfolding Keeps all_placed
  quiet p r = refl

  startup_cell-Keeps : (startup : Text) → Keeps opened (startup_cell world startup)
  unfolding startup_cell placed
  startup_cell-Keeps startup =
      then_do-Keeps opened _ _ (perform-Keeps opened (wait_for_ready (codes "60")) refl)
        λ ready. perform-Keeps opened (drain_execution startup (codes "60.0")) refl

  started_up-Keeps : (startup : Text) → Keeps closed (started_up world startup)
  unfolding started_up placed
  started_up-Keeps [] = quiet closed (ok [])
  started_up-Keeps (c ∷ startup) =
      then_do-Keeps closed _ _ (perform-Keeps closed manager_client refl) λ made.
        with_channels-Keeps (startup_cell world (c ∷ startup)) (startup_cell-Keeps (c ∷ startup))

  stay-Keeps : (n : ℕ) → Keeps closed (stay world n)
  unfolding stay placed
  stay-Keeps zero = quiet closed (ok tt)
  stay-Keeps (suc n) =
      then_do-Keeps closed _ _ (perform-Keeps closed sleep refl) λ slept. stay-Keeps n

  boot-Keeps : Keeps closed (boot world)
  unfolding boot placed
  boot-Keeps = then_do-Keeps closed _ _ (perform-Keeps closed (make_directory _) refl) λ made.
      then_do-Keeps closed _ _ (perform-Keeps closed start_kernel refl) λ started.
        then_do-Keeps closed _ _ (perform-Keeps closed write_connection_file refl) λ written.
          then_do-Keeps closed _ _ (started_up-Keeps _) λ ready. stay-Keeps world.seconds_alive

  connect-Keeps : Keeps closed (connect world)
  unfolding connect placed
  connect-Keeps =
      then_do-Keeps closed _ _ (perform-Keeps closed (new_client _) refl)
        λ made. perform-Keeps closed load_connection_file refl

  cell-Keeps : (code : Text) → Keeps opened (cell world code)
  unfolding cell placed
  cell-Keeps code =
      then_do-Keeps opened _ _ (perform-Keeps opened (wait_for_ready (codes "30")) refl) λ ready.
        then_do-Keeps opened _ _ (quiet opened _)
          λ timeout. perform-Keeps opened (drain_execution code timeout) refl

  exec-Keeps : (code : Text) → Keeps closed (exec world code)
  unfolding exec placed
  exec-Keeps code = then_do-Keeps closed _ _ connect-Keeps λ connected.
      then_do-Keeps closed _ _ (with_channels-Keeps (cell world code) (cell-Keeps code)) λ result.
        then_do-Keeps closed _ _ (perform-Keeps closed (write_stdout result) refl)
          λ written. quiet closed (ok tt)

  probe-Keeps : Keeps opened (probe world)
  unfolding probe placed
  probe-Keeps =
      then_do-Keeps opened _ _ (quiet opened _)
        λ timeout. perform-Keeps opened (wait_for_ready timeout) refl

  failed-Keeps : (e : Error) → Keeps closed (failed world e)
  unfolding failed placed
  failed-Keeps e =
      then_do-Keeps closed _ _ (perform-Keeps closed (write_stderr _) refl)
        λ written. quiet {A = ℕ} closed (ok 1)

  reported-Keeps : (m : Steps Text) → Keeps closed m → Keeps closed (reported world m)
  unfolding reported Keeps
  reported-Keeps (calls, ok a) h = h
  reported-Keeps (calls, err e) h =
      then_do-Keeps {B = ℕ} closed (calls, ok tt) (λ raised. failed world e) h
        λ raised. failed-Keeps e

  ping-Keeps : Keeps closed (ping world)
  unfolding ping
  ping-Keeps = reported-Keeps _ (
      then_do-Keeps closed _ _ connect-Keeps
        λ connected. with_channels-Keeps (probe world) probe-Keeps)

  usage_error-Keeps : (message : Text) → Keeps closed (usage_error world message)
  unfolding usage_error placed
  usage_error-Keeps message =
      then_do-Keeps closed _ _ (perform-Keeps closed (write_stderr message) refl)
        λ written. quiet {A = ℕ} closed (ok 2)

  run_payload-Keeps : (arguments : List Text) → Keeps closed (run_payload world arguments)
  unfolding run_payload
  run_payload-Keeps (payload ∷ []) =
      then_do-Keeps closed _ _ (quiet closed (world.b64decode payload)) λ bytes.
        then_do-Keeps closed _ _ (quiet closed (world.decode bytes))
          λ code. then_do-Keeps closed _ _ (exec-Keeps code) λ done. quiet {A = ℕ} closed (ok 0)
  run_payload-Keeps [] = usage_error-Keeps _
  run_payload-Keeps (payload ∷ more ∷ rest) = usage_error-Keeps _

  either :
      {A : Type 0} (b : Bool) (m n : Steps A)
      → Keeps closed m
      → Keeps closed n
      → Keeps closed (if b then m else n)
  either true m n h k = h
  either false m n h k = k

  main_mode-Keeps :
      (mode : Text) (arguments : List Text) → Keeps closed (main_mode world mode arguments)
  unfolding main_mode
  main_mode-Keeps mode arguments =
      either (mode === codes "boot") _ _
        (then_do-Keeps closed _ _ boot-Keeps λ done. quiet {A = ℕ} closed (ok 0))
        (either (mode === codes "exec") _ _ (run_payload-Keeps arguments)
          (either (mode === codes "ping") _ _ ping-Keeps (usage_error-Keeps _)))

  -- However main is called and whatever the calls raise, the channels of a client are opened only while they
  -- are closed, a kernel is waited for or runs code only while they are open, and they are closed again, once,
  -- before main ends.
  pub main-all_placed :
      (argv : List Text) → all_placed world.answer closed (main world argv).0 ≡ some closed
  unfolding main Keeps
  main-all_placed (program ∷ mode ∷ arguments) = main_mode-Keeps mode arguments
  main-all_placed (program ∷ []) = main_mode-Keeps [] []
  main-all_placed [] = main_mode-Keeps [] []
