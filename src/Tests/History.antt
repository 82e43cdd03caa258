-- ===== src/Tests/History.antt =====
-- Reading a hand from the text of a file.
use phud.Prelude.{◌≡◌, refl, [], ◌∷◌, codes, some, set, replicate, arith}
use phud.Prelude.Result.{ok, err, debug, release, out_of_fuel}
use phud.TextFile.{open_file}
use phud.TextFile.Seek.{visited}
use phud.Text.{find?, contains}
use phud.Strings.{to_size_t, size_t_of, trim, drop_spaces, is_space, scan, to_amount}
use phud.Entities.Action.{raise}
use phud.History.Fields.{split, parse_seat_line, none_token}
use phud.History.Fields.Splitting.{split-join, join, overwrite, space}
use phud.History.Fields.SeatLines.{parse_seat_line-seat_line}
use phud.History.HandBuilder.Actions.{parse_line_for_action_params, parse_actions_and_winners}
use phud.History.HandBuilder.Actions.Lines.{parse_raises}
use phud.History.HandBuilder.Actions.Truncated.{parse_actions_and_winners_forever}
use phud.Tests.Samples.{whole}

split-join_example :
    split (join (codes "As" ∷ codes "Kd" ∷ [])) (space ∷ [])
    ≡ ok (overwrite (replicate 5 none_token) 0 (codes "As" ∷ codes "Kd" ∷ []))
split-join_example =
    split-join (codes "As" ∷ codes "Kd" ∷ []) (ground arith, (ground arith, λ e. omega arith))
      (omega arith) (omega arith)

parse_seat_line-seat_line_example :
    parse_seat_line (codes "Seat 2: a: (b) (500)") (replicate 10 [])
    ≡ ok (set (replicate 10 []) 1 (codes "a: (b)"))
unfolding to_size_t size_t_of trim drop_spaces is_space scan
parse_seat_line-seat_line_example =
    parse_seat_line-seat_line (codes "2") (codes "a: (b)") (codes "500)") 2 (replicate 10 []) refl
      (omega arith) (omega arith) (omega arith) (ground arith) (ground arith) (omega arith)

parse_raises_example :
    parse_line_for_action_params whole debug (codes "ann raises 20 to 40")
    ≡ ok (
        some (record {
          player_name = codes "ann";
          kind = raise;
          bet_amount = to_amount whole (codes "40");
        }))
unfolding contains find?
parse_raises_example =
    parse_raises whole debug (codes "ann") (codes "20") (codes "40") (ground arith) (ground arith)
      (omega arith) refl refl refl refl

parse_actions_and_winners_forever_example :
    parse_actions_and_winners whole release 50
      (open_file (codes "*** FLOP ***\na bets 3\n"))
      (codes "1")
    ≡ err out_of_fuel
unfolding open_file visited contains find?
parse_actions_and_winners_forever_example =
    parse_actions_and_winners_forever whole 50 (open_file (codes "*** FLOP ***\na bets 3\n"))
      (codes "1") (refl, refl) refl
