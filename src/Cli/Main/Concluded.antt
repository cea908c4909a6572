-- ===== src/Cli/Main/Concluded.antt =====
-- How a run ends: every output closed, the statistics reported, the handler of SIGTERM restored.
use root_wire.Base.{
  ◌⊎◌, inl, inr, ℕ, suc, ◌≡◌, ◌↔◌, refl, ap, ◌∙◌, Option, none, some, List, [], ◌∷◌, ◌++◌, Result,
  ok, err, map, append-nil,
}
use root_wire.Compiler.Syntax.{Text, Unicode}
use root_wire.Bpf.{SockFilter}
use root_wire.Cli.Filter.{resolve_filter_program}
use root_wire.Cli.Arguments.{Arguments, validate_args}
use root_wire.Cli.Main.{
  Raised, permission_error, value_error_of, keyboard_interrupt, cancelled_error, other_error,
  OutputKind, pcap, stats, Event, handler_restored, sudo_hint, aborted, terminated, error_line,
  closed, reported, Outcome, exited, Traced, World, drive, handled, first_output, close_next,
  close_all, reporting, capture, announced, with_outputs, main,
}

-- The outputs that a trace closes, in order.
unfoldable pub closed_outputs : List Event → List OutputKind
closed_outputs [] = []
closed_outputs (closed output ∷ events) = output ∷ closed_outputs events
closed_outputs (_ ∷ events) = closed_outputs events

-- How often the summary is written, and how often the handler of SIGTERM is put back.
unfoldable pub reports : List Event → ℕ
reports [] = 0
reports (reported ∷ events) = suc (reports events)
reports (_ ∷ events) = reports events

unfoldable pub restores : List Event → ℕ
restores [] = 0
restores (handler_restored ∷ events) = suc (restores events)
restores (_ ∷ events) = restores events

-- A trace that closes exactly these outputs, restores the handler once, and reports, once, exactly if
-- `main` is to exit with 0.
pub record Concludes (outputs : List OutputKind) (traced : Traced) : Type 0 where
  pub closes : closed_outputs traced.0 ≡ outputs
  pub restored : restores traced.0 ≡ 1
  pub report : (reports traced.0 ≡ 1) ↔ (traced.1 ≡ exited 0)
  pub report_or_not : (reports traced.0 ≡ 1) ⊎ (reports traced.0 ≡ 0)

-- A message that closes nothing, reports nothing and restores nothing.
record IsMessage (events : List Event) : Type 0 where
  closes : (tail : List Event) → closed_outputs (events ++ tail) ≡ closed_outputs tail
  restores_none : (tail : List Event) → restores (events ++ tail) ≡ restores tail
  reports_none : (tail : List Event) → reports (events ++ tail) ≡ reports tail

closed_outputs-all :
    (outputs : List OutputKind) (tail : List Event)
    → closed_outputs (map closed outputs ++ tail) ≡ outputs ++ closed_outputs tail
unfolding closed_outputs
closed_outputs-all [] tail = refl
closed_outputs-all (o ∷ outputs) tail = ap (λ s. o ∷ s) (closed_outputs-all outputs tail)

restores-all :
    (outputs : List OutputKind) (tail : List Event)
    → restores (map closed outputs ++ tail) ≡ restores tail
unfolding restores
restores-all [] tail = refl
restores-all (o ∷ outputs) tail = restores-all outputs tail

reports-all :
    (outputs : List OutputKind) (tail : List Event)
    → reports (map closed outputs ++ tail) ≡ reports tail
unfolding reports
reports-all [] tail = refl
reports-all (o ∷ outputs) tail = reports-all outputs tail

closed_outputs-map : (outputs : List OutputKind) → closed_outputs (map closed outputs) ≡ outputs
unfolding closed_outputs
closed_outputs-map [] = refl
closed_outputs-map (o ∷ outputs) = ap (λ s. o ∷ s) (closed_outputs-map outputs)

restores-map : (outputs : List OutputKind) → restores (map closed outputs) ≡ 0
unfolding restores
restores-map [] = refl
restores-map (o ∷ outputs) = restores-map outputs

reports-map : (outputs : List OutputKind) → reports (map closed outputs) ≡ 0
unfolding reports
reports-map [] = refl
reports-map (o ∷ outputs) = reports-map outputs

with_report :
    (outputs : List OutputKind) (messages : List Event)
    → IsMessage messages
    → Concludes outputs
        (messages ++ (handler_restored ∷ map closed outputs ++ reported ∷ []), exited 0)
unfolding closed_outputs restores reports
with_report outputs messages m =
    let r = m.reports_none _ ∙ reports-all outputs (reported ∷ []) in
    record {
      closes = m.closes _ ∙ closed_outputs-all outputs (reported ∷ []) ∙ append-nil outputs;
      restored = m.restores_none _ ∙ ap suc (restores-all outputs (reported ∷ []));
      report = (λ h. refl, λ h. r);
      report_or_not = inl r;
    }

without_report :
    (outputs : List OutputKind) (messages : List Event) (outcome : Outcome)
    → (outcome ≡ exited 0 → ⊥)
    → IsMessage messages
    → Concludes outputs (messages ++ handler_restored ∷ map closed outputs, outcome)
unfolding closed_outputs restores reports
without_report outputs messages outcome n m =
    let r : reports (messages ++ handler_restored ∷ map closed outputs) ≡ 0 =
      m.reports_none _ ∙ reports-map outputs in
    record {
      closes = m.closes _ ∙ closed_outputs-map outputs;
      restored = m.restores_none _ ∙ ap suc (restores-map outputs);
      report = (λ h. cc, λ h. absurd (n h));
      report_or_not = inr r;
    }

nil-IsMessage : IsMessage []
nil-IsMessage = record { closes = λ t. refl; restores_none = λ t. refl; reports_none = λ t. refl }

module _ (unicode : Unicode) (world : World)
    (closing : (o : OutputKind) → world.close o ≡ none) where
  pub close_all-closing :
      (outputs : List OutputKind) → close_all unicode world outputs ≡ (map closed outputs, none)
  unfolding close_all close_next
  close_all-closing [] = refl
  close_all-closing (o ∷ outputs) = rw (closing o, close_all-closing outputs)

  -- The end of a run, by what it comes to.
  abbrev Ends : List OutputKind → Result Raised ℕ → Type 0
  Ends outputs result =
      let (messages, outcome, report) = handled result in
      let (events, end) = reporting unicode world outcome report (map closed outputs, none) in
      Concludes outputs (messages ++ handler_restored ∷ events, end)

  Ends-handled : (outputs : List OutputKind) (result : Result Raised ℕ) → Ends outputs result
  unfolding handled closed_outputs restores reports
  Ends-handled outputs (ok number) = with_report outputs [] nil-IsMessage
  Ends-handled outputs (err permission_error) =
      without_report outputs (sudo_hint ∷ []) _ (λ h. cc)
        (record { closes = λ t. refl; restores_none = λ t. refl; reports_none = λ t. refl })
  Ends-handled outputs (err (value_error_of message)) =
      without_report outputs (error_line message ∷ []) _ (λ h. cc)
        (record { closes = λ t. refl; restores_none = λ t. refl; reports_none = λ t. refl })
  Ends-handled outputs (err keyboard_interrupt) =
      with_report outputs (aborted ∷ [])
        (record { closes = λ t. refl; restores_none = λ t. refl; reports_none = λ t. refl })
  Ends-handled outputs (err cancelled_error) =
      with_report outputs (terminated ∷ [])
        (record { closes = λ t. refl; restores_none = λ t. refl; reports_none = λ t. refl })
  Ends-handled outputs (err (other_error message)) =
      without_report outputs [] _ (λ h. cc) nil-IsMessage

  capture-Concludes :
      (args : Arguments) (program : Option (List SockFilter)) (outputs : List OutputKind)
      → Concludes outputs (capture unicode world args program outputs)
  unfolding capture closed_outputs restores reports
  capture-Concludes args program outputs =
      let ends = Ends-handled outputs (drive world.signal (world.run args program outputs)) in
      rw (capture, close_all-closing outputs)
        (record {
          closes = ends.closes;
          restored = ends.restored;
          report = ends.report;
          report_or_not = ends.report_or_not;
        })

  -- The outputs of `_build_outputs`.
  abbrev pub outputs_of : Arguments → Option Text → List OutputKind
  outputs_of args none = first_output args ∷ stats ∷ []
  outputs_of args (some path) = first_output args ∷ pcap path ∷ stats ∷ []

  -- The target of `-w`, if there is one, can be opened.
  abbrev pub CanOpen : Option Text → Type 0
  CanOpen none = Unit {0}
  CanOpen (some path) = world.open_target path ≡ ok tt

  with_outputs-Concludes :
      (args : Arguments) (program : Option (List SockFilter)) (write : Option Text)
      → CanOpen write
      → Concludes (outputs_of args write) (with_outputs unicode world args program write)
  unfolding with_outputs announced closed_outputs restores reports
  with_outputs-Concludes args program none h =
      let c = capture-Concludes args program (outputs_of args none) in
      record {
        closes = c.closes;
        restored = c.restored;
        report = c.report;
        report_or_not = c.report_or_not;
      }
  with_outputs-Concludes args program (some path) h =
      let c = capture-Concludes args program (outputs_of args (some path)) in
      rw (with_outputs, h)
        (record {
          closes = c.closes;
          restored = c.restored;
          report = c.report;
          report_or_not = c.report_or_not;
        })

  -- Once the arguments pass, the filter compiles and the target of `-w` opens, then however the capture
  -- ends (by itself, by either signal, or by any exception), every output is closed once, in the order
  -- in which they were made, the handler of SIGTERM is restored once, and the statistics are reported
  -- once where `main` exits with 0 and else not at all, if closing raises nothing.
  pub main-Concludes :
      (args : Arguments) (program : Option (List SockFilter))
      → validate_args world.paths args ≡ none
      → resolve_filter_program unicode args.filter ≡ ok program
      → CanOpen args.write
      → Concludes (outputs_of args args.write) (main unicode world args)
  unfolding main
  main-Concludes args program valid resolved h =
      rw (main, valid, resolved) (with_outputs-Concludes args program args.write h)
