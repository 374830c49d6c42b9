-- ===== src/Cmd/Fetcher/Tests.antt =====
-- A run with one realizer of one of two layers.
use cvetool.Cmd.Fetcher.{
  join_errors, remove_layer, unseen_layers, realizer, append_at, realize, layers_at, clear_at,
  close_realizer, readers_error, close_arena, step, track_realizer, track_close,
}
use cvetool.Prelude.{Error, ℕ, ◌≤◌, ◌≡◌, refl, inl, true, Option, none, List, [], ◌∷◌, arith}
use cvetool.Cmd.Fetcher.{
  new_local_fetch_arena, Call, new_realizer, realizes, closes_realizer, closes_arena, run,
}
use cvetool.Cmd.Fetcher.Once.{count, count_all, AreProper, close_once}

abbrev no_error : ℕ → Option Error
no_error layer = none

abbrev all_closed : List Call
all_closed = new_realizer ∷ realizes 0 (7 ∷ []) ∷ closes_realizer 0 ∷ closes_arena ∷ []

all_closed-AreProper : AreProper no_error none (new_local_fetch_arena (7 ∷ 8 ∷ []) true) all_closed
unfolding join_errors remove_layer unseen_layers new_local_fetch_arena realizer append_at realize
    layers_at clear_at close_realizer readers_error close_arena step run track_realizer track_close
all_closed-AreProper = (tt, ((ground arith, (refl, tt)), (tt, (tt, tt))))

close_once_example :
    (count 7 (run no_error none (new_local_fetch_arena (7 ∷ 8 ∷ []) true) all_closed).closed ≤ 1)
    × ((run no_error none (new_local_fetch_arena (7 ∷ 8 ∷ []) true) all_closed).pending ≡ []
        → count_all 7
            (run no_error none (new_local_fetch_arena (7 ∷ 8 ∷ []) true) all_closed).realized
          ≡ 0
        → count 7 (run no_error none (new_local_fetch_arena (7 ∷ 8 ∷ []) true) all_closed).closed
          ≡ 1)
close_once_example =
    close_once no_error none (7 ∷ 8 ∷ []) true all_closed 7 (inl refl) all_closed-AreProper
