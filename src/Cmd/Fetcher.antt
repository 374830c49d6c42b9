-- ===== src/Cmd/Fetcher.antt =====
-- cmd/cvetool/fetcher.go: who closes the layers of an image. A layer is its pointer, and `close` the
-- answer of a layer's `Close` method, which is code of claircore. Each method holds the mutexes of
-- what it changes while it takes the layers out, so a run is a sequence of calls.
pub mod Once
mod Tests
use cvetool.Prelude.{
  ◌==◌, if◌then◌else◌, Error, joined, ℕ, zero, suc, ◌+◌, Bool, true, false, Option, none, some,
  List, [], ◌∷◌, ◌++◌, map,
}

-- `errors.Join`
pub join_errors : List (Option Error) → Option Error
join_errors [] = none
join_errors (none ∷ es) = join_errors es
join_errors (some e ∷ es) = elim (join_errors es) [ none ↦ some e | some f ↦ some (joined e f) ]

-- The arena with its realizers: `realized` has the layers of each realizer in the order of their
-- creation, `readers` tells if there are readers that are not closed yet, `closed` lists the calls of
-- the layers' `Close`, and `readers_closed` counts the calls of the readers' `Close`.
pub record Arena : Type 0 where
  pub pending : List ℕ
  pub readers : Bool
  pub realized : List (List ℕ)
  pub closed : List ℕ
  pub readers_closed : ℕ

pub remove_layer : List ℕ → ℕ → List ℕ
remove_layer [] layer = []
remove_layer (l ∷ ls) layer =
    let rest = remove_layer ls layer in if l == layer then rest else l ∷ rest

pub unseen_layers : List ℕ → List ℕ
unseen_layers [] = []
unseen_layers (l ∷ ls) = l ∷ remove_layer (unseen_layers ls) l

-- `NewLocalFetchArena`
pub new_local_fetch_arena : List ℕ → Bool → Arena
new_local_fetch_arena layers readers = record {
  pending = unseen_layers layers;
  readers = readers;
  realized = [];
  closed = [];
  readers_closed = 0;
}

-- `Realizer`
pub realizer : Arena → Arena
realizer a = record a { realized = a.realized ++ ([] ∷ []) }

pub append_at : List (List ℕ) → ℕ → ℕ → List (List ℕ)
append_at [] i layer = []
append_at (r ∷ rs) zero layer = (r ++ (layer ∷ [])) ∷ rs
append_at (r ∷ rs) (suc i) layer = r ∷ append_at rs i layer

-- `Realize` of the realizer with the index `i`
pub realize : Arena → ℕ → List ℕ → Arena
realize a i [] = a
realize a i (l ∷ ls) =
    realize (record a { pending = remove_layer a.pending l; realized = append_at a.realized i l }) i
      ls

pub layers_at : List (List ℕ) → ℕ → List ℕ
layers_at [] i = []
layers_at (r ∷ rs) zero = r
layers_at (r ∷ rs) (suc i) = layers_at rs i

pub clear_at : List (List ℕ) → ℕ → List (List ℕ)
clear_at [] i = []
clear_at (r ∷ rs) zero = [] ∷ rs
clear_at (r ∷ rs) (suc i) = r ∷ clear_at rs i

module _ (close : ℕ → Option Error) (close_readers : Option Error) where
  -- `Close` of the realizer with the index `i`
  pub close_realizer : Arena → ℕ → Arena × Option Error
  close_realizer a i = (
    record a { realized = clear_at a.realized i; closed = a.closed ++ layers_at a.realized i },
    join_errors (map close (layers_at a.realized i)),
  )

  readers_error : Bool → List (Option Error)
  readers_error true = close_readers ∷ []
  readers_error false = []

  -- `Close` of the arena
  pub close_arena : Arena → Arena × Option Error
  close_arena a = (
    record a {
      pending = [];
      readers = false;
      closed = a.closed ++ a.pending;
      readers_closed = if a.readers then suc a.readers_closed else a.readers_closed;
    },
    join_errors (map close a.pending ++ readers_error a.readers),
  )

-- A call of a method.
pub data Call : Type 0 where
  new_realizer : Call
  realizes : ℕ → List ℕ → Call
  closes_realizer : ℕ → Call
  closes_arena : Call

module _ (close : ℕ → Option Error) (close_readers : Option Error) where
  pub step : Arena → Call → Arena
  step a new_realizer = realizer a
  step a (realizes i ls) = realize a i ls
  step a (closes_realizer i) = (close_realizer close close_readers a i).0
  step a closes_arena = (close_arena close close_readers a).0

  pub run : Arena → List Call → Arena
  run a [] = a
  run a (c ∷ cs) = run (step a c) cs

-- `trackingFetchArena`: the errors of the realizers, and the error of the first `Close`, if there was
-- one.
pub record Tracking : Type 0 where
  pub realizer_errors : List (Option Error)
  pub close_result : Option (Option Error)

-- `Close` of a trackingRealizer, whose realizer answered `e`.
pub track_realizer : Tracking → Option Error → Tracking × Option Error
track_realizer t none = (t, none)
track_realizer t (some e) =
    (record t { realizer_errors = t.realizer_errors ++ (some e ∷ []) }, some e)

-- `Close` of a trackingFetchArena: `arena_error` is the answer of the arena's `Close`, which is called
-- if the third component is true.
pub track_close : Tracking → Option Error → Tracking × Option Error × Bool
track_close t arena_error = elim t.close_result [
  | some e ↦ (t, e, false)
  | none ↦
      let e = join_errors (t.realizer_errors ++ (arena_error ∷ [])) in
      (record t { close_result = some e }, e, true)
]
