-- ===== src/Cli/Main/Opened.antt =====
-- What is opened, and when `main` refuses.
use root_wire.Base.{
  ℕ, ◌≡◌, ◌≢◌, ◌⊎◌, inl, inr, refl, ap, ◌∙◌, Bool, true, false, Option, none, some, List, [], ◌∷◌,
  ◌++◌, Result, ok, err, Bool-cases, Option-cases, arith,
}
use root_wire.Compiler.Syntax.{Text, Unicode, Error}
use root_wire.Compiler.Words.{text_eq_self}
use root_wire.Bpf.{SockFilter}
use root_wire.Cli.Filter.{resolve_filter_program}
use root_wire.Cli.Arguments.{Arguments, Paths, same_file, check_write, check_read, validate_args}
use root_wire.Cli.Main.{
  Raised, permission_error, value_error_of, keyboard_interrupt, cancelled_error, other_error,
  OutputKind, Event, opened, reported, Outcome, World, drive, handled, close_next, close_all,
  reporting, capture, announced, with_outputs, is_compile_error, filter_failed, main,
}

-- The files that a trace creates or empties.
unfoldable pub opened_paths : List Event → List Text
opened_paths [] = []
opened_paths (opened path ∷ events) = path ∷ opened_paths events
opened_paths (_ ∷ events) = opened_paths events

opened_paths-append : (s t : List Event) → opened_paths (s ++ t) ≡ opened_paths s ++ opened_paths t
unfolding opened_paths
opened_paths-append [] t = refl
opened_paths-append (e ∷ s) t = ground (arith, opened_paths-append s t)

opened_paths-append_nil :
    (s t : List Event) → opened_paths s ≡ [] → opened_paths t ≡ [] → opened_paths (s ++ t) ≡ []
opened_paths-append_nil s t h k = rw (opened_paths-append s t, h, k)

handled-opened_paths : (result : Result Raised ℕ) → opened_paths (handled result).0 ≡ []
unfolding handled opened_paths
handled-opened_paths (ok number) = refl
handled-opened_paths (err permission_error) = refl
handled-opened_paths (err (value_error_of message)) = refl
handled-opened_paths (err keyboard_interrupt) = refl
handled-opened_paths (err cancelled_error) = refl
handled-opened_paths (err (other_error message)) = refl

close_next-opened_paths :
    (output : OutputKind) (raised : Option Raised) (rest : List Event × Option Raised)
    → opened_paths rest.0 ≡ []
    → opened_paths (close_next output raised rest).0 ≡ []
unfolding close_next opened_paths
close_next-opened_paths output (some raised) rest h = refl
close_next-opened_paths output none rest h = h

-- `os.path` says that two names are different files: by their devices and inodes, or, where those of
-- one cannot be read, by their normalised names.
abbrev pub AreDifferent : Paths → Text → Text → Type 0
AreDifferent paths a b =
    (paths.samefile a b ≡ some false)
    ⊎ ((paths.samefile a b ≡ none) × (paths.realpath a ≢ paths.realpath b))

-- The target is another file than the capture that is replayed, if one is.
unfoldable pub Spares : Paths → Option Text → Text → Type 0
Spares paths none write = Unit {0}
Spares paths (some read) write = AreDifferent paths read write

same_file-AreDifferent :
    (paths : Paths) (a b : Text) → same_file paths a b ≡ false → AreDifferent paths a b
unfolding same_file
same_file-AreDifferent paths a b h = by_inodes (paths.samefile a b) refl
  where
    by_inodes : (o : Option Bool) → paths.samefile a b ≡ o → AreDifferent paths a b
    by_inodes (some true) e = let k = rw (same_file, e) at h in cc
    by_inodes (some false) e = inl e
    by_inodes none e =
        let k = rw (same_file, e) at h in
        inr (e, λ same. let q = rw (same, text_eq_self (paths.realpath b)) at k in cc)

check_write-none :
    (paths : Paths) (read write : Text)
    → check_write paths read (some write) ≡ none
    → AreDifferent paths read write
unfolding check_write
check_write-none paths read write h = elim (Bool-cases (same_file paths read write)) [
  | inr e ↦ same_file-AreDifferent paths read write e
  | inl e ↦ let k = rw (check_write, e) at h in cc
]

check_read-none :
    (paths : Paths) (read write : Text) (interface : Option (List Text)) (filter : Option Text)
    → check_read paths read interface filter (some write) ≡ none
    → AreDifferent paths read write
unfolding check_read
check_read-none paths read write (some interfaces) filter h = cc
check_read-none paths read write none (some expression) h = cc
check_read-none paths read write none none h = check_write-none paths read write h

validate_args-none :
    (paths : Paths) (args : Arguments) (write : Text)
    → validate_args paths args ≡ none
    → args.write ≡ some write
    → Spares paths args.read write
unfolding validate_args Spares
validate_args-none paths args write h w = by_read args.read refl
  where
    by_read : (read : Option Text) → args.read ≡ read → Spares paths args.read write
    by_read none r = rw (Spares, r) tt
    by_read (some read) r =
        let checked = rw (validate_args, r, w) at h in
        rw (Spares, r) (check_read-none paths read write args.interface args.filter checked)

module _ (unicode : Unicode) (world : World) where
  close_all-opened_paths :
      (outputs : List OutputKind) → opened_paths (close_all unicode world outputs).0 ≡ []
  unfolding close_all opened_paths
  close_all-opened_paths [] = refl
  close_all-opened_paths (output ∷ outputs) =
      close_next-opened_paths output (world.close output) (close_all unicode world outputs)
        (close_all-opened_paths outputs)

  reporting-opened_paths :
      (outcome : Outcome) (report : Bool) (events : List Event) (raised : Option Raised)
      → opened_paths events ≡ []
      → opened_paths (reporting unicode world outcome report (events, raised)).0 ≡ []
  unfolding opened_paths
  reporting-opened_paths outcome report events (some raised) h = h
  reporting-opened_paths outcome true events none h =
      opened_paths-append events (reported ∷ []) ∙ ap (λ s. s ++ []) h
  reporting-opened_paths outcome false events none h = h

  capture-opened_paths :
      (args : Arguments) (program : Option (List SockFilter)) (outputs : List OutputKind)
      → opened_paths (capture unicode world args program outputs).0 ≡ []
  unfolding capture opened_paths
  capture-opened_paths args program outputs =
      let result = drive world.signal (world.run args program outputs) in
      opened_paths-append_nil (handled result).0 _ (handled-opened_paths result) (
        reporting-opened_paths (handled result).1 (handled result).2
          (close_all unicode world outputs).0 (close_all unicode world outputs).1
          (close_all-opened_paths outputs))

  -- What a run of `main` opens: nothing, or the target of `-w`.
  abbrev pub Opens : Arguments → List Text → Type 0
  Opens args paths =
      (paths ≡ [])
      ⊎ ((write : Text) × (args.write ≡ some write)
          × (paths ≡ write ∷ [])
          × Spares world.paths args.read write)

  with_outputs-opened_paths :
      (args : Arguments) (program : Option (List SockFilter)) (write : Option Text)
      → (opened_paths (with_outputs unicode world args program write).0 ≡ [])
        ⊎ ((path : Text) × (write ≡ some path)
            × (opened_paths (with_outputs unicode world args program write).0 ≡ path ∷ []))
  unfolding with_outputs announced opened_paths
  with_outputs-opened_paths args program none = inl (capture-opened_paths args program _)
  with_outputs-opened_paths args program (some path) = by_open (world.open_target path) refl
    where
      by_open :
          (r : Result Text (Unit {0}))
          → world.open_target path ≡ r
          → (opened_paths (with_outputs unicode world args program (some path)).0 ≡ [])
            ⊎ ((other : Text) × (some path ≡ some other)
                × (opened_paths (with_outputs unicode world args program (some path)).0
                    ≡ other ∷ []))
      by_open (err message) e = inl (rw (with_outputs, e))
      by_open (ok _) e = inr (
        path,
        refl,
        rw (with_outputs, e) (ap (λ s. path ∷ s) (capture-opened_paths args program _)),
      )

  -- `main` creates or empties no file but the target of `-w`, and that at most once; where a capture is
  -- replayed, only if `os.path.samefile` says that the target is another file than the capture, or, if
  -- that raises, their normalised names differ.
  pub main-Opens : (args : Arguments) → Opens args (opened_paths (main unicode world args).0)
  unfolding main opened_paths filter_failed
  main-Opens args = elim (Option-cases (validate_args world.paths args)) [
    | inr (error, e) ↦ inl (rw (main, e))
    | inl e ↦ by_program e (resolve_filter_program unicode args.filter) refl
  ]
    where
      by_program :
          validate_args world.paths args ≡ none
          → (r : Result Error (Option (List SockFilter)))
          → resolve_filter_program unicode args.filter ≡ r
          → Opens args (opened_paths (main unicode world args).0)
      by_program e (err error) f = elim (Bool-cases (is_compile_error error)) [
        | inl c ↦ inl (rw (main, e, f, filter_failed, c))
        | inr c ↦ inl (rw (main, e, f, filter_failed, c))
      ]
      by_program e (ok program) f = elim (with_outputs-opened_paths args program args.write) [
        | inl none_opened ↦ inl (rw (main, e, f) none_opened)
        | inr (path, w, one) ↦
            inr (path, w, rw (main, e, f) one, validate_args-none world.paths args path e w)
      ]
