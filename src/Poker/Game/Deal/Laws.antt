-- ===== src/Poker/Game/Deal/Laws.antt =====
-- What a new hand starts with: `init` of poker.game.ts.
use casino_app.Prelude.{
  ℕ, suc, ◌+◌, ◌-◌, ◌*◌, ◌≤◌, ◌<◌, ◌≡◌, refl, ap, ◌∙◌, inl, inr, min, none, some, List, [], ◌∷◌,
  ◌++◌, length, sum_of, Option-cases, arith,
}
use casino_app.Prelude.Int.{pos}
use casino_app.Prelude.Sort.{sort_by, sum_of-sort_by, length-sort_by}
use casino_app.Poker.Betting.{HandSeat, next_to_act}
use casino_app.Poker.Cards.{deck_size}
use casino_app.Poker.Cards.Shuffle.{occurrences, shuffle_complete}
use casino_app.Poker.Config.{PokerConfig}
use casino_app.Poker.Game.{PokerState, Player, Context, config_of, commit, post, seat_chips}
use casino_app.Poker.Game.Finish.Laws.{table_chips}
use casino_app.Poker.Game.Deal.{
  dealt_before, new_seat, deal_seats, sb_index, bb_index, post_blind, with_blinds, open_street,
  first_state, start_hand, init,
}

-- The hole cards at the table, in the order they were dealt.
abbrev pub hole_cards : List HandSeat → List ℕ
hole_cards [] = []
hole_cards (s ∷ seats) = s.cards ++ hole_cards seats

abbrev pub brought : List Player → ℕ
brought = sum_of (λ (p : Player). p.stack)

-- Seats that hold the front of the deck, with the stacks of the players and nothing put in yet.
abbrev pub Dealt : List Player → List ℕ → List HandSeat → List ℕ → Type 0
Dealt players deck seats rest =
    (hole_cards seats ++ rest ≡ deck)
    × (length seats ≡ length players)
    × (seat_chips seats ≡ brought players)

deal_seats-Dealt :
    (players : List Player) (deck : List ℕ)
    → 2 * length players ≤ length deck
    → (seats : List HandSeat) × (rest : List ℕ) × (deal_seats players deck ≡ some (seats, rest))
      × Dealt players deck seats rest
unfolding deal_seats
deal_seats-Dealt [] deck h = ([], deck, refl, (refl, refl, refl))
deal_seats-Dealt (p ∷ players) [] h = absurd (omega arith)
deal_seats-Dealt (p ∷ players) (a ∷ []) h = absurd (omega arith)
deal_seats-Dealt (p ∷ players) (a ∷ b ∷ deck) h =
    let (seats, rest, dealt, (cards, long, chips)) = deal_seats-Dealt players deck (omega arith) in
    (
      new_seat p a b ∷ seats,
      rest,
      rw (dealt, deal_seats) refl,
      (ap (λ cs. a ∷ b ∷ cs) cards, ap suc long, omega (arith, chips)),
    )

-- Posting moves chips and touches no card.
abbrev pub SameTable : List HandSeat → List HandSeat → Type 0
SameTable a b =
    (seat_chips a ≡ seat_chips b) × (hole_cards a ≡ hole_cards b) × (length a ≡ length b)

post_blind_keeps :
    (config : PokerConfig) (small big index : ℕ) (seat : HandSeat)
    → ((post_blind config small big index seat).stack
          + (post_blind config small big index seat).committed
        ≡ seat.stack + seat.committed)
      × ((post_blind config small big index seat).cards ≡ seat.cards)
unfolding post commit
post_blind_keeps config small big index seat = ground arith

with_blinds-SameTable :
    (config : PokerConfig) (small big index : ℕ) (seats : List HandSeat)
    → SameTable (with_blinds config small big index seats) seats
unfolding with_blinds
with_blinds-SameTable config small big index [] = (refl, refl, refl)
with_blinds-SameTable config small big index (s ∷ seats) =
    let (chips, cards, long) = with_blinds-SameTable config small big (index + 1) seats in
    let (same, own) = post_blind_keeps config small big index s in
    (omega (arith, chips, same), rw own (ap (λ cs. s.cards ++ cs) cards), ap suc long)

start_hand_keeps :
    (ctx : Context) (config : PokerConfig) (seats : List HandSeat) (deck : List ℕ)
    → SameTable (start_hand ctx config seats deck).betting.seats seats
      × ((start_hand ctx config seats deck).deck ≡ deck)
      × ((start_hand ctx config seats deck).board ≡ [])
      × ((start_hand ctx config seats deck).result ≡ none)
start_hand_keeps ctx config seats deck =
    let count = length seats in
    let button = min config.button_order (count - 1) in
    let big = bb_index count button in
    let blinded = with_blinds config (sb_index count button) big 0 seats in
    opened (first_state config button seats blinded deck) big
      (with_blinds-SameTable config (sb_index count button) big 0 seats) refl refl refl
  where
    opened :
        (state : PokerState) (big : ℕ)
        → SameTable state.betting.seats seats
        → state.deck ≡ deck
        → state.board ≡ []
        → state.result ≡ none
        → SameTable (open_street state ctx big config).betting.seats seats
          × ((open_street state ctx big config).deck ≡ deck)
          × ((open_street state ctx big config).board ≡ [])
          × ((open_street state ctx big config).result ≡ none)
    opened state big same d b r = elim (Option-cases (next_to_act state.betting big)) [
      | inl nobody ↦ rw nobody (same, d, b, r)
      | inr (first, found) ↦ rw found (same, d, b, r)
    ]

-- With every draw below its bound and at most 26 players a hand is dealt: the hole cards and the rest
-- of the deck are 52 cards, each of the cards 0 to 51 exactly once, and the stacks and the blinds are
-- together what the players brought.
pub init_deals :
    (ctx : Context)
    → ((i : ℕ) → ctx.random i ≤ i)
    → length ctx.players ≤ 26
    → (state : PokerState) × (init ctx ≡ some state)
      × ((card : ℕ)
          → card < deck_size
          → occurrences card (hole_cards state.betting.seats ++ state.deck) ≡ 1)
      × (length state.betting.seats ≡ length ctx.players)
      × (table_chips state ≡ pos (brought ctx.players))
unfolding init
init_deals ctx draws few =
    let (deck, shuffled, long, once) = shuffle_complete ctx.random draws in
    let ordered = sort_by dealt_before ctx.players in
    let (seats, rest, dealt, (cards, count, chips)) =
      deal_seats-Dealt ordered deck
        (omega (arith, length-sort_by dealt_before ctx.players, long)) in
    let state = start_hand ctx (config_of ctx) seats rest in
    let (same, left, board, playing) = start_hand_keeps ctx (config_of ctx) seats rest in
    let all : hole_cards state.betting.seats ++ state.deck ≡ deck = rw (same.1, left) cards in
    (
      state,
      rw (shuffled, dealt, init) refl,
      λ card lt. rw all (once card lt),
      same.2 ∙ count ∙ length-sort_by dealt_before ctx.players,
      rw playing (
          ap pos
            (same.0 ∙ chips ∙ sum_of-sort_by dealt_before (λ (p : Player). p.stack) ctx.players)),
    )
