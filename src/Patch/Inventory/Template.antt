-- ===== src/Patch/Inventory/Template.antt =====
-- The order ids of template patches.
use local_clash.Prelude.{
  ℕ, ◌+◌, ◌*◌, ◌/◌, ◌%◌, ◌<◌, String, ◌==◌, ◌≡◌, refl, sym, ap, ap₂, ◌∙◌, Bool, true, false,
  if◌then◌else◌, ok, arith,
}
use local_clash.Patch.OrderId.{put_digits, padded, parse_order_id, format_order_id}
use local_clash.Patch.OrderId.RoundTrip.{parse-format}
use local_clash.Patch.Inventory.{template_order_id}

-- "%04d.000000" writes the order id of a multiple of 1000000.
padded-format : (n : ℕ) → n < 10000 → padded 4 10000 n ".000000" ≡ format_order_id (n * 1000000)
unfolding format_order_id padded put_digits
padded-format n h =
    let whole : n * 1000000 / 1000000 ≡ n = omega arith in
    let fraction : n * 1000000 % 1000000 ≡ 0 = omega arith in
    sym (ap₂ (λ a b. padded 4 10000 a (String.◌∷◌ "." (padded 6 1000000 b ""))) whole fraction)

abbrev Parses : String → Type 0
Parses s = (value : ℕ) × (parse_order_id s ≡ ok value)

Parses-if : (test : Bool) (s t : String) → Parses s → Parses t → Parses (if test then s else t)
Parses-if true s t p q = p
Parses-if false s t p q = q

-- The order id given to a patch of a template parses. The template has at most 99 patches.
pub template_order_id-Parses :
    (id : String) (index : ℕ)
    → index < 99
    → (value : ℕ) × (parse_order_id (template_order_id id index) ≡ ok value)
unfolding template_order_id parse_order_id
template_order_id-Parses id index h =
    let number = (index + 1) * 100 in
    Parses-if (id == "default.minimal.v1") "0000.000000" _ (0, refl)
      (Parses-if (id == "default.region-exits.v1") "0100.000000" _ (100000000, refl)
        (Parses-if (id == "default.direct-baseline.v1") "0200.000000" _ (200000000, refl)
          (Parses-if (id == "default.quic-main.v1") "0300.000000" _ (300000000, refl)
            (Parses-if (id == "default.communication-social.v1") "0400.000000" _ (400000000, refl)
              (Parses-if (id == "default.ai-dev-speedtest.v1") "0500.000000" _ (500000000, refl)
                (Parses-if (id == "default.steam.v1") "0550.000000" _ (550000000, refl)
                  (Parses-if (id == "default.platform-media.v1") "0600.000000" _ (600000000, refl)
                    (Parses-if (id == "default.games.v1") "0700.000000" _ (700000000, refl)
                      (Parses-if (id == "default.tail-fallback.v1") "0800.000000" _
                        (800000000, refl)
                        ((
                          number * 1000000,
                          ap parse_order_id (padded-format number (omega arith))
                              ∙ parse-format (number * 1000000) (omega arith),
                        )))))))))))
