-- ===== src/Hardware/Fans/Percent.antt =====
-- The two scales of a fan speed: percent and the byte of the PWM attribute.
use asense.Base.{ℕ, ◌≤◌, ◌≡◌, arith}
use asense.Hardware.Fans.{percent_to_pwm, pwm_to_percent}

-- Every percentage survives the trip to a PWM byte and back, and the byte is in range.
pub pwm_to_percent-percent_to_pwm :
    (percent : ℕ)
    → percent ≤ 100
    → (pwm_to_percent (percent_to_pwm percent) ≡ percent) × (percent_to_pwm percent ≤ 255)
unfolding pwm_to_percent percent_to_pwm
pwm_to_percent-percent_to_pwm percent h = (omega arith, omega arith)
