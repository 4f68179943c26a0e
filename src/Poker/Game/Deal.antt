-- ===== src/Poker/Game/Deal.antt =====
-- `init`, `openStreet`, `pendingTimer`, `isTerminal` and `rakeFor` of poker.game.ts. The deck that is
-- dealt from is the value of `shuffle`.
pub mod Laws
use casino_app.Prelude.{
  ℕ, ◌+◌, ◌-◌, ◌%◌, ◌==◌, ltb, leb, min, Bool, true, false, if◌then◌else◌, Option, none, some,
  or_else, List, [], ◌∷◌, map, length, get_elem?, drop,
}
use casino_app.Prelude.Sort.{sort_by}
use casino_app.Prelude.Dict.{Dict, put}
use casino_app.Poker.Betting.{preflop, BettingState, HandSeat, next_to_act}
use casino_app.Poker.Cards.{shuffle}
use casino_app.Poker.Pots.{max_of}
use casino_app.Poker.Config.{PokerConfig}
use casino_app.Poker.Game.{
  PokerResult, PokerState, Player, Context, config_of, TimerChange, keep_timer, arm_timer, Outcome,
  done, refused, bad_index, ◌>>=◌, post,
}
use casino_app.Poker.Game.Actions.{is_complete}

-- Deal order, and equal orders stay as they come.
abbrev pub dealt_before : Player → Player → Bool
dealt_before a b = leb a.order b.order

abbrev pub new_seat : Player → ℕ → ℕ → HandSeat
new_seat player first second = record {
  user_id = player.user_id;
  seat = player.seat;
  order = player.order;
  stack = player.stack;
  committed = 0;
  street_bet = 0;
  folded = false;
  all_in = false;
  cards = first ∷ second ∷ [];
  revealed = false;
  mucked = false;
}

-- Two cards to each player from the front of the deck; what is left is `deck.slice(cursor)`.
unfoldable pub deal_seats : List Player → List ℕ → Option (List HandSeat × List ℕ)
deal_seats [] deck = some ([], deck)
deal_seats (player ∷ players) (first ∷ second ∷ deck) = elim (deal_seats players deck) [
  | none ↦ none
  | some r ↦ some (new_seat player first second ∷ r.0, r.1)
]
deal_seats (player ∷ players) _ = none

-- `Object.fromEntries`, over the seats.
unfoldable pub entries : (HandSeat → ℕ) → List HandSeat → Dict ℕ → Dict ℕ
entries f [] d = d
entries f (seat ∷ seats) d = entries f seats (put seat.user_id (f seat) d)

abbrev pub sb_index : ℕ → ℕ → ℕ
sb_index count button = if count == 2 then button else (button + 1) % count

abbrev pub bb_index : ℕ → ℕ → ℕ
bb_index count button = if count == 2 then (button + 1) % count else (button + 2) % count

abbrev pub post_blind : PokerConfig → ℕ → ℕ → ℕ → HandSeat → HandSeat
post_blind config small big index seat =
    if index == small
    then post seat config.sb
    else if index == big
    then post seat config.bb
    else seat

unfoldable pub with_blinds : PokerConfig → ℕ → ℕ → ℕ → List HandSeat → List HandSeat
unfolding post
with_blinds config small big index [] = []
with_blinds config small big index (seat ∷ seats) =
    post_blind config small big index seat ∷ with_blinds config small big (index + 1) seats

abbrev pub open_street : PokerState → Context → ℕ → PokerConfig → PokerState
open_street state ctx big config = at_first (next_to_act state.betting big)
  where
    at_first : Option ℕ → PokerState
    at_first none = record state { to_act_index = none; deadline_at = none }
    at_first (some first) = record state {
      to_act_index = some first;
      deadline_at = some (ctx.now + config.turn_timer_ms);
    }

abbrev pub first_state : PokerConfig → ℕ → List HandSeat → List HandSeat → List ℕ → PokerState
first_state config button seats blinded deck = record {
  betting = record {
    street = preflop;
    seats = blinded;
    current_bet = max_of (map (λ (s : HandSeat). s.street_bet) blinded);
    min_raise = config.bb;
    big_blind = config.bb;
    acted_this_street = [];
    acted_since_full_raise = [];
  };
  deck = deck;
  board = [];
  button_index = button;
  to_act_index = none;
  blinds = (config.sb, config.bb);
  starting_stacks = entries (λ s. s.stack) seats [];
  deadline_at = none;
  timebank = entries (λ s. config.timebank_ms) seats [];
  result = none;
  paid_seats = [];
}

abbrev pub start_hand : Context → PokerConfig → List HandSeat → List ℕ → PokerState
start_hand ctx config seats deck =
    let count = length seats in
    let button = min config.button_order (count - 1) in
    let big = bb_index count button in
    let blinded = with_blinds config (sb_index count button) big 0 seats in
    open_street (first_state config button seats blinded deck) ctx big config

unfoldable pub init : Context → Option PokerState
unfolding deal_seats
init ctx = elim (shuffle ctx.random) [
  | none ↦ none
  | some deck ↦ elim (deal_seats (sort_by dealt_before ctx.players) deck) [
    | none ↦ none
    | some (seats, rest) ↦ some (start_hand ctx (config_of ctx) seats rest)
  ]
]

abbrev pub is_terminal : PokerState → Bool
is_terminal = is_complete

abbrev pub rake_of : Option PokerResult → ℕ
rake_of none = 0
rake_of (some result) = result.rake

-- `rakeFor` of the definition: what the engine asks once the hand is over.
abbrev pub rake_taken : PokerState → ℕ
rake_taken state = rake_of state.result

-- `pendingTimer`: what is left of the turn; the difference stops at 0 as `Math.max(0, …)` does.
unfoldable pub pending_timer : ℕ → PokerState → Option ℕ
pending_timer now state =
    if is_complete state then none else left state.to_act_index state.deadline_at
  where
    left : Option ℕ → Option ℕ → Option ℕ
    left none _ = none
    left (some _) none = none
    left (some _) (some deadline) = some (deadline - now)
