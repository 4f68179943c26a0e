-- ===== src/ResponsibleGaming/Tests.antt =====
-- A player with a daily loss limit of 100 and a weekly break, at noon of 6 January 2025.
use casino_app.Prelude.{ℕ, ◌+◌, ◌≤◌, ◌≡◌, refl, arith, none, some, [], ◌∷◌}
use casino_app.Prelude.Int.{pos, int}
use casino_app.ResponsibleGaming.{
  wager_spend, loss, day, week, month, player, cool_off, session_time, RgLimit,
  limit_increase_cooling_ms, ms_per_day, window_start,
}
use casino_app.ResponsibleGaming.Store.{
  RgDb, active, self_excluded, LimitInput, pending, active_exclusion, list_limits, cool_off_started,
  release_lapsed_exclusions, meter, promote_due_increases, usage_for, set_limit,
}
use casino_app.ResponsibleGaming.Service.{
  check_allowance, check_play_entry, meter_spend, require_play_entry, require_allowance,
  release_lapsed, exclude, rg_limit_reached, rg_self_excluded, applicable, request_limit,
  meter_connected_play_time, check_limits, exhausted_in, player_set_limit,
}
use casino_app.ResponsibleGaming.Allowance.{WithinLimits, check_allowance-WithinLimits}
use casino_app.ResponsibleGaming.Exclusions.{excluded_is_refused}
use casino_app.ResponsibleGaming.Limits.{LimitView, limit_view, OthersKept, set_limit_refines}
use casino_app.ResponsibleGaming.Cooling.{limit_holds_while_cooling}
use casino_app.ResponsibleGaming.Steps.{then_one, none_taken, lapses_released, limit_changed}

abbrev noon : ℕ
noon = 1736164800000

abbrev loss_limit : RgLimit
loss_limit = record {
  id = 1;
  user_id = 7;
  limit_type = loss;
  period = day;
  amount = 100;
  origin = player;
  pending_amount = none;
  pending_effective_at = none;
}

abbrev limited : RgDb
limited = record {
  limits = loss_limit ∷ [];
  usages = [];
  exclusions = [];
  checks = [];
  events = [];
  statuses = (7, active) ∷ [];
}

-- Monday 6 January 2025, and the first of January.
window_starts :
    (window_start day noon ≡ 1736121600000)
    × (window_start week noon ≡ 1736121600000)
    × (window_start month noon ≡ 1735689600000)
unfolding window_start
window_starts = (refl, refl, refl)

abbrev spent_60 : RgDb
spent_60 = meter_spend limited 7 wager_spend 60 noon

second_60_refused :
    (require_allowance noon noon spent_60 7 wager_spend 60).0 ≡ some rg_limit_reached
unfolding check_allowance active_exclusion meter_spend meter check_limits promote_due_increases
    usage_for window_start
second_60_refused = refl

check_allowance-WithinLimits_example :
    (active_exclusion noon limited 7 ≡ none)
    × WithinLimits spent_60 7 noon (applicable wager_spend (list_limits spent_60 7))
unfolding check_allowance active_exclusion check_limits promote_due_increases usage_for
check_allowance-WithinLimits_example =
    check_allowance-WithinLimits noon noon noon limited limited 7 wager_spend 60 refl

-- A break of a day, which starts at noon.
abbrev on_break : RgDb
on_break = record limited {
  exclusions =
      record {
        id = 9;
        user_id = 7;
        kind = cool_off;
        starts_at = noon;
        ends_at = some (noon + ms_per_day);
      }
      ∷ [];
  events = record { user_id = 7; event_type = cool_off_started; created_at = noon } ∷ [];
  statuses = (7, self_excluded) ∷ [];
}

break_starts : exclude 9 noon noon limited 7 cool_off (some (pos ms_per_day)) ≡ some on_break
unfolding exclude
break_starts = refl

abbrev next_morning : ℕ
next_morning = noon + 70000000

excluded_is_refused_example :
    (require_allowance next_morning next_morning
        (release_lapsed next_morning on_break).1
        7
        wager_spend
        5
      ≡ (some rg_self_excluded, (release_lapsed next_morning on_break).1))
    × (require_play_entry next_morning next_morning (release_lapsed next_morning on_break).1 7
        ≡ some rg_self_excluded)
excluded_is_refused_example =
    excluded_is_refused 0 next_morning noon next_morning next_morning next_morning next_morning 7
      wager_spend 5 on_break (release_lapsed next_morning on_break).1 refl
      (then_one none_taken (lapses_released next_morning)) (omega arith) (omega arith)

-- After a day the break is over, and its account active again.
break_lapses :
    ((release_lapsed (noon + ms_per_day) on_break).0 ≡ 7 ∷ [])
    × ((release_lapsed (noon + ms_per_day) on_break).1.statuses ≡ (7, active) ∷ [])
unfolding release_lapsed release_lapsed_exclusions
break_lapses = (refl, refl)

abbrev looser : LimitInput
looser = record {
  user_id = 7;
  limit_type = loss;
  period = day;
  amount = 500;
  cooling_ms = limit_increase_cooling_ms;
}

set_limit_refines_example :
    (limit_view (set_limit 2 noon limited looser).1 7 loss day
      ≡ some (record { bound = 100; increase = some (500, noon + limit_increase_cooling_ms) }))
    × OthersKept limited (set_limit 2 noon limited looser).1 7 loss day
set_limit_refines_example = set_limit_refines 2 noon limited looser (tt, tt)

abbrev asked : RgDb
asked = (request_limit 2 noon noon limited 7 loss day 500).1

asked_accepted :
    player_set_limit 2 noon noon limited 7 loss day (int (pos 500))
    ≡ some (pending (noon + limit_increase_cooling_ms), asked)
unfolding player_set_limit set_limit
asked_accepted = refl

limit_holds_while_cooling_example :
    (v : LimitView) × (limit_view asked 7 loss day ≡ some v) × (v.bound ≤ 100)
limit_holds_while_cooling_example =
    limit_holds_while_cooling noon (noon + 5) 7 100 loss day limited asked (omega arith) (tt, tt)
      refl
      (then_one none_taken (
        limit_changed 2 noon noon 7 loss day (int (pos 500))
          (pending (noon + limit_increase_cooling_ms)) (omega arith, tt) (omega arith)
          asked_accepted))

-- A player whose time is up gets the error of an excluded one.
time_limit_error :
    require_play_entry noon noon
      (meter_connected_play_time noon
        (record limited {
          limits = record loss_limit { limit_type = session_time; amount = 1 } ∷ [];
        })
        (7 ∷ []))
      7
    ≡ some rg_self_excluded
unfolding check_play_entry meter_connected_play_time active_exclusion meter exhausted_in usage_for
    window_start
time_limit_error = refl
