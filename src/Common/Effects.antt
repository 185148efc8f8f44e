-- ===== src/Common/Effects.antt =====
-- Calls that read and change the world around the program: the cluster, as a state that is passed on.
use Prim.Native.String.{String}
use mathlib.Core.Option.{Option, none, some}
use environments.Common.Results.{Error, Result, ok, err, wrap, labelled}

-- A call that returns a value or an error, and the world that it leaves.
abbrev pub Exec {ℓ} : Type ℓ → Type ℓ → Type ℓ
Exec W A = W → Result A × W

-- A call that returns only Go's `error`, nil as `none`.
abbrev pub Effect {ℓ} : Type ℓ → Type ℓ
Effect W = W → Option Error × W

module _ {ℓ} {W A : Type ℓ} where
  -- `if err := e(); err != nil { return nil, err }` and then `next`
  abbrev pub after : Option Error × W → Exec W A → Result A × W
  after (some e, w) next = (err e, w)
  after (none, w) next = next w

  -- `v, err := m(); if err != nil { return nil, err }` and then `next`
  abbrev pub with_value : {B : Type ℓ} → Result B × W → (B → Exec W A) → Result A × W
  with_value (err e, w) next = (err e, w)
  with_value (ok b, w) next = next b w

-- `fmt.Errorf("label: %w", err)` of a call's error
abbrev pub labelled_call {ℓ} : {W A : Type ℓ} → String → Result A × W → Result A × W
labelled_call label (r, w) = (labelled label r, w)

abbrev pub labelled_error {ℓ} : {W : Type ℓ} → String → Option Error × W → Option Error × W
labelled_error label (none, w) = (none, w)
labelled_error label (some e, w) = (some (wrap label e), w)

-- `if err := e(); err != nil { return err }` and then `next`, which returns an error too
abbrev pub and_then {ℓ} : {W : Type ℓ} → Option Error × W → Effect W → Option Error × W
and_then (none, w) next = next w
and_then (some e, w) next = (some e, w)
