-- ===== src/Poker/Game/Flow/Board.antt =====
-- The board that `nextStreet` of poker.game.ts deals.
use casino_app.Prelude.{
  ℕ, zero, suc, ◌+◌, ◌≤◌, ◌<◌, ◌≡◌, refl, sym, ap, ◌∙◌, Bool, true, false, List, [], ◌∷◌, ◌++◌,
  length, length-append, take, drop, sum_of, arith,
}
use mathlib.Core.List.{append_assoc}
use casino_app.Poker.Betting.{Street, preflop, flop, turn, river, complete}
use casino_app.Poker.Game.{PokerState, Event, board_dealt}
use casino_app.Poker.Game.Flow.{streets_after, cards_of_street, deal_street, deal_streets}

-- The cards that a list of streets puts on the board.
abbrev pub cards_due : List Street → ℕ
cards_due = sum_of cards_of_street

take-drop : (n : ℕ) (xs : List ℕ) → take n xs ++ drop n xs ≡ xs
take-drop zero xs = refl
take-drop (suc n) [] = refl
take-drop (suc n) (x ∷ xs) = ap (λ ys. x ∷ ys) (take-drop n xs)

length-take : (n : ℕ) (xs : List ℕ) → n ≤ length xs → length (take n xs) ≡ n
length-take zero xs h = refl
length-take (suc n) [] h = absurd (omega arith)
length-take (suc n) (x ∷ xs) h = ap suc (length-take n xs (omega arith))

length-drop : (n : ℕ) (xs : List ℕ) → n ≤ length xs → length (drop n xs) + n ≡ length xs
length-drop zero xs h = omega arith
length-drop (suc n) [] h = absurd (omega arith)
length-drop (suc n) (x ∷ xs) h = omega (arith, length-drop n xs (omega arith))

deal_street_keeps :
    (street : Street) (state : PokerState)
    → (deal_street street state).board ++ (deal_street street state).deck
      ≡ state.board ++ state.deck
deal_street_keeps street state =
    append_assoc state.board (take (cards_of_street street) state.deck) _
    ∙ ap (λ cs. state.board ++ cs) (take-drop (cards_of_street street) state.deck)

-- The streets of hold'em: how many cards the board has on each, and which follows.
abbrev pub board_size : Street → ℕ
board_size preflop = 0
board_size flop = 3
board_size turn = 4
board_size river = 5
board_size complete = 5

abbrev pub following : Street → Street
following preflop = flop
following flop = turn
following turn = river
following river = river
following complete = complete

-- The street that play goes on with: the next one, or the river when nobody can bet any more.
abbrev pub street_dealt : Bool → Street → Street
street_dealt true street = following street
street_dealt false preflop = river
street_dealt false flop = river
street_dealt false turn = river
street_dealt false river = river
street_dealt false complete = complete

take-append : (xs ys : List ℕ) → take (length xs) (xs ++ ys) ≡ xs
take-append [] ys = refl
take-append (x ∷ xs) ys = ap (λ zs. x ∷ zs) (take-append xs ys)

drop-append : (xs ys : List ℕ) → drop (length xs) (xs ++ ys) ≡ ys
drop-append [] ys = refl
drop-append (x ∷ xs) ys = drop-append xs ys

-- The streets that are dealt keep board and deck together, and add the cards that are due.
deal_streets_due :
    (streets : List Street) (state : PokerState) (events : List Event)
    → cards_due streets ≤ length state.deck
    → ((deal_streets false streets state events).0.board
          ++ (deal_streets false streets state events).0.deck
        ≡ state.board ++ state.deck)
      × (length (deal_streets false streets state events).0.board
          ≡ length state.board + cards_due streets)
unfolding deal_streets
deal_streets_due [] state events h = (refl, omega arith)
deal_streets_due (street ∷ streets) state events h =
    let dealt = deal_street street state in
    let n = cards_of_street street in
    let enough : n ≤ length state.deck = omega arith in
    let (kept, run) =
      deal_streets_due streets dealt (events ++ board_dealt street dealt.board ∷ [])
        (omega (arith, length-drop n state.deck enough)) in
    (
      kept ∙ deal_street_keeps street state,
      omega (
        arith,
        run,
        length-append state.board (take n state.deck),
        length-take n state.deck enough,
      ),
    )

-- A state on a street, with the board of that street cut off the front of a run of cards, and the rest
-- of the run as its deck.
abbrev pub DealtTo : List ℕ → Street → PokerState → Type 0
DealtTo run street after =
    (after.betting.street ≡ street)
    × (after.board ≡ take (board_size street) run)
    × (after.deck ≡ drop (board_size street) run)

cut_at :
    (run : List ℕ) (street : Street) (after : PokerState)
    → after.betting.street ≡ street
    → after.board ++ after.deck ≡ run
    → length after.board ≡ board_size street
    → DealtTo run street after
cut_at run street after s kept n = (
  s,
  sym (rw (← n, ← kept) (take-append after.board after.deck)),
  sym (rw (← n, ← kept) (drop-append after.board after.deck)),
)

-- On a street before the river, with the board of that street and cards enough for a board of five,
-- dealing on reaches the next street, or the river when nobody can bet any more; its board is the first
-- 3, 4 or 5 cards of the board and the deck before it in one run, and the deck is the rest of that run.
pub deal_streets_in_order :
    (can_still_bet : Bool) (street : Street) (state : PokerState) (events : List Event)
    → 0 < length (streets_after street)
    → length state.board ≡ board_size street
    → 5 ≤ length state.board + length state.deck
    → DealtTo
        (state.board ++ state.deck)
        (street_dealt can_still_bet street)
        (deal_streets can_still_bet (streets_after street) state events).0
unfolding deal_streets
deal_streets_in_order false preflop state events o n h =
    let streets = streets_after preflop in
    let (kept, size) = deal_streets_due streets state events (omega arith) in
    cut_at _ river (deal_streets false streets state events).0 refl kept (omega arith)
deal_streets_in_order false flop state events o n h =
    let streets = streets_after flop in
    let (kept, size) = deal_streets_due streets state events (omega arith) in
    cut_at _ river (deal_streets false streets state events).0 refl kept (omega arith)
deal_streets_in_order false turn state events o n h =
    let streets = streets_after turn in
    let (kept, size) = deal_streets_due streets state events (omega arith) in
    cut_at _ river (deal_streets false streets state events).0 refl kept (omega arith)
deal_streets_in_order true preflop state events o n h =
    let (kept, size) = deal_streets_due (flop ∷ []) state events (omega arith) in
    cut_at _ flop (deal_street flop state) refl kept (omega arith)
deal_streets_in_order true flop state events o n h =
    let (kept, size) = deal_streets_due (turn ∷ []) state events (omega arith) in
    cut_at _ turn (deal_street turn state) refl kept (omega arith)
deal_streets_in_order true turn state events o n h =
    let (kept, size) = deal_streets_due (river ∷ []) state events (omega arith) in
    cut_at _ river (deal_street river state) refl kept (omega arith)
deal_streets_in_order can_still_bet river state events o n h = absurd (omega arith)
deal_streets_in_order can_still_bet complete state events o n h = absurd (omega arith)
