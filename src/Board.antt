-- ===== src/Board.antt =====
-- The power of the Ethernet chip: boards/esp32_poe/board_init.c, and boards/esp32_poe_wrover/board_init.c, which
-- is the same. The GPIO driver is a parameter.
use zephyr_siot.Base.{ℕ, Bool, Option, none, some, if◌then◌else◌}
use zephyr_siot.Base.Int.{ℤ, negsuc}

-- ESP32_POE_PHY_PWR_EN_PIN
abbrev pub phy_pwr_en_pin : ℕ
phy_pwr_en_pin = 12

-- `-ENODEV`
abbrev pub neg_enodev : ℤ
neg_enodev = negsuc 18

-- The pin that is made an output that starts high, if one is, and the result. `configure` is
-- `gpio_pin_configure`.
unfoldable pub board_esp32_ethernet_kit_init : Bool → (ℕ → ℤ) → Option ℕ × ℤ
board_esp32_ethernet_kit_init is_ready configure =
    if is_ready then (some phy_pwr_en_pin, configure phy_pwr_en_pin) else (none, neg_enodev)
