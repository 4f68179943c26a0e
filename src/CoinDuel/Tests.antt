-- ===== src/CoinDuel/Tests.antt =====
-- Two players, three and five in the pot, heads.
use casino_app.Prelude.{true, false, ℕ, ◌≡◌, refl, some, [], ◌∷◌, sum_of}
use casino_app.CoinDuel.{
  heads, tails, Context, Action, pick, ReduceResult, stakes, init, next_turn, decide, reduce,
  on_timeout, settle,
}
use casino_app.CoinDuel.Laws.{Decided, Match, opened, acted, timed, Match-settles}

abbrev ctx : Context
ctx = record {
  players =
      record { user_id = 7; seat = 0; stake = 3 }
      ∷ record { user_id = 8; seat = 1; stake = 5 }
      ∷ [];
  random = λ purpose. 0;
}

abbrev first_pick : Action
first_pick = record { action_type = pick; user_id = 7; choice = some tails }

abbrev waiting : ReduceResult
waiting = next_turn (init ctx) ((7, tails) ∷ []) 7 tails false 1

abbrev decided : ReduceResult
decided = decide ctx waiting.state ((7, tails) ∷ (8, heads) ∷ []) 8 true

waiting-Match : Match ctx waiting.state
unfolding init reduce
waiting-Match = acted first_pick waiting opened refl

decided-Match : Match ctx decided.state
unfolding on_timeout init
decided-Match = timed 1 decided waiting-Match refl

Match-settles_example :
    (sum_of (λ (i : ℕ × ℕ). i.1) (settle ctx decided.state) ≡ stakes ctx.players)
    × Decided ctx decided.state decided.state.flip
Match-settles_example = Match-settles ctx {s = decided.state} decided-Match

settled_as : settle ctx decided.state ≡ (8, 8) ∷ []
unfolding settle init
settled_as = refl
