-- ===== src/Battery/Voltage.antt =====
-- The voltage of the battery in battery.cpp: the buffer of monitor_battery_level.
use mynd_firmware.Prelude.{
  ℕ, zero, suc, ◌+◌, ◌*◌, ◌/◌, ◌%◌, ◌^◌, ◌≡◌, ◌≢◌, ◌≤◌, ◌<◌, refl, ap, ◌∙◌, List, [], ◌∷◌, Bool,
  false, ◌||◌, ltb, ◌==◌, if◌then◌else◌, set, get_or, length, replicate, arith,
}
use mynd_firmware.Prelude.Words.{u16_mod, u32_mod}

-- What monitor_battery_level keeps of the voltage.
pub record Voltage : Type 0 where
  pub battery_voltage_buffer : List ℕ
  pub battery_voltage_buffer_index : ℕ
  pub is_battery_voltage_stable : Bool

abbrev pub initial_voltage : Voltage
initial_voltage = record {
  battery_voltage_buffer = replicate 10 0;
  battery_voltage_buffer_index = 0;
  is_battery_voltage_stable = false;
}

-- The voltage in millivolts, from the average of the converter's channel and its supply.
unfoldable pub battery_voltage_mv : ℕ → ℕ → ℕ
battery_voltage_mv bat_voltage vdda = bat_voltage * vdda * 3 % u32_mod / 2 ^ 12 % u16_mod

-- `*std::max_element(...)`
unfoldable pub max_element : List ℕ → ℕ
max_element [] = 0
max_element (x ∷ xs) = let rest = max_element xs in if ltb x rest then rest else x

-- One more sample in the buffer.
unfoldable pub add_sample : ℕ → Voltage → Voltage
add_sample sample v =
    let index = (v.battery_voltage_buffer_index + 1) % 10 in
    record {
      battery_voltage_buffer = set v.battery_voltage_buffer v.battery_voltage_buffer_index sample;
      battery_voltage_buffer_index = index;
      is_battery_voltage_stable = v.is_battery_voltage_stable || index == 0;
    }

-- The samples of the battery, in order.
unfoldable pub add_samples : List ℕ → Voltage → Voltage
add_samples [] v = v
add_samples (x ∷ samples) v = add_samples samples (add_sample x v)

get_or-set_self : (l : List ℕ) (k x : ℕ) → k < length l → get_or (set l k x) k 0 ≡ x
get_or-set_self [] k x h = absurd (omega arith)
get_or-set_self (y ∷ l) zero x h = refl
get_or-set_self (y ∷ l) (suc k) x h = get_or-set_self l k x (omega arith)

get_or-set_other : (l : List ℕ) (j k x : ℕ) → k ≢ j → get_or (set l j x) k 0 ≡ get_or l k 0
get_or-set_other [] j k x h = refl
get_or-set_other (y ∷ l) zero zero x h = absurd (h refl)
get_or-set_other (y ∷ l) zero (suc k) x h = refl
get_or-set_other (y ∷ l) (suc j) zero x h = refl
get_or-set_other (y ∷ l) (suc j) (suc k) x h = get_or-set_other l j k x (λ e. h (ap suc e))

length-set : (l : List ℕ) (k x : ℕ) → length (set l k x) ≡ length l
length-set [] k x = refl
length-set (y ∷ l) zero x = refl
length-set (y ∷ l) (suc k) x = ap suc (length-set l k x)

le-max_element : (l : List ℕ) (k : ℕ) → get_or l k 0 ≤ max_element l
unfolding max_element
le-max_element [] k = omega arith
le-max_element (x ∷ l) zero = ground arith
le-max_element (x ∷ l) (suc k) = ground (arith, le-max_element l k)

-- A sample stays in its place for the nine samples behind it.
stays :
    (samples : List ℕ) (v : Voltage) (k behind : ℕ)
    → k < 10
    → v.battery_voltage_buffer_index ≡ (k + 1 + behind) % 10
    → behind + length samples ≤ 9
    → get_or (add_samples samples v).battery_voltage_buffer k 0
      ≡ get_or v.battery_voltage_buffer k 0
unfolding add_samples add_sample
stays [] v k behind h at room = refl
stays (x ∷ samples) v k behind h at room =
    stays samples (add_sample x v) k (behind + 1) h (omega (arith, at)) (omega (arith, room))
    ∙ get_or-set_other v.battery_voltage_buffer v.battery_voltage_buffer_index k x
        (omega (arith, at, room))

-- For a buffer of ten places: the voltage that is read behind a sample and at most nine more, the greatest in
-- the buffer, is at least that sample, so a low voltage has been low at each of the last ten samples.
low_voltage_lasts :
    (v : Voltage) (x : ℕ) (samples : List ℕ)
    → length v.battery_voltage_buffer ≡ 10
    → v.battery_voltage_buffer_index < 10
    → length samples ≤ 9
    → x ≤ max_element (add_samples (x ∷ samples) v).battery_voltage_buffer
unfolding add_samples add_sample
low_voltage_lasts v x samples whole inside room =
    let k = v.battery_voltage_buffer_index in
    let kept =
      stays samples (add_sample x v) k 0 inside (omega arith) (omega (arith, room))
      ∙ get_or-set_self v.battery_voltage_buffer k x (omega (arith, whole, inside)) in
    let most = le-max_element (add_samples samples (add_sample x v)).battery_voltage_buffer k in
    omega (arith, kept, most)
