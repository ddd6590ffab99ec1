-- ===== src/Patch/OrderId/Tests.antt =====
-- Order ids as the program writes them.
use local_clash.Prelude.{ℕ, ◌≡◌, refl, ok, err, arith, ◌<◌}
use local_clash.Prelude.Text.{trim_space, strip_prefix?, split, decimal}
use local_clash.Patch.OrderId.{
  strip_digits, order_id_pattern, read_digits, put_digits, padded, valid_order_id, parse_order_id,
  format_order_id,
}
use local_clash.Patch.OrderId.RoundTrip.{parse-format, valid-format}

-- Everything that a run with order ids computes with.
order_ids : Unit {0}
unfolding trim_space strip_prefix? split decimal strip_digits order_id_pattern read_digits
    put_digits padded valid_order_id parse_order_id format_order_id
order_ids = tt

template_id : format_order_id 100000000 ≡ "0100.000000"
unfolding order_ids
template_id = refl

too_large : format_order_id 10000000000 ≡ "10000.000000"
unfolding order_ids
too_large = refl

two_points : parse_order_id "0100.000000.0" ≡ err "0100.000000.0"
unfolding order_ids
two_points = refl

parse-format_example : parse_order_id (format_order_id 999000001) ≡ ok 999000001
parse-format_example = parse-format 999000001 (omega arith)

valid-format_example :
    (value : ℕ) × (value < 10000000000)
    × (format_order_id value ≡ "0550.000000")
    × (parse_order_id "0550.000000" ≡ ok value)
unfolding order_ids
valid-format_example = valid-format "0550.000000" refl refl
