-- ===== src/Control/Inet/Machine.antt =====
-- The controller of src/control_thread_inet.c as an abstract machine: what is typed and what is heard
-- from the sensors comes in, one at a time, and commands go out. There are no events and no calls.
pub mod Told
pub mod Readings
pub mod Refines
use real_time_systems.Base.{
  ◌+◌, ◌%◌, ◌^◌, ℕ, ◌≡◌, Bool, true, false, ◌&&◌, List, [], ◌∷◌, if◌then◌else◌, str_eq,
}
use real_time_systems.Base.Int.{ℤ, pos, neg, ltb_ℤ, eqb_ℤ, truthy}
use real_time_systems.Control.Inet.Globals.{
  Undefined, default_min, default_max, min_cmd, max_cmd, motor_cmd,
}
use real_time_systems.Control.Inet.Inputs.{Input, heard, typed}
use real_time_systems.Control.Inet.Update.Policy.{Sending}

-- A side of the window: the connection of its sensor or 0, the last value heard, the last that was not
-- negative, and whether that is new.
pub record Side : Type 0 where
  pub fd : ℤ
  pub tmp : ℤ
  pub light : ℤ
  pub fresh : Bool

pub record Machine : Type 0 where
  pub motor : ℤ
  pub indoor : Side
  pub outdoor : Side
  pub min : ℤ
  pub max : ℤ
  pub number : ℤ
  pub lit : Bool
  pub seq : ℕ
  pub sent : List Sending

abbrev pub no_sensor : Side
no_sensor = record { fd = pos 0; tmp = pos 0; light = pos 0; fresh = false }

abbrev pub at_rest : Machine
at_rest = record {
  motor = pos 0;
  indoor = no_sensor;
  outdoor = no_sensor;
  min = default_min;
  max = default_max;
  number = pos 0;
  lit = false;
  seq = 0;
  sent = [];
}

-- A packet for the motor, with the next number.
abbrev pub gives : ℤ → ℤ → Machine → Machine
gives direction turns m = record m {
  seq = (m.seq + 1) % 2 ^ 32;
  sent = record { fd = m.motor; sequence = m.seq; direction = direction; turns = turns } ∷ m.sent;
}

abbrev pub lights : Bool → Machine → Machine
lights on m = record m { lit = on }

-- Too dark inside: open the curtain, where it is light enough outside and there is a motor; the lamp on.
-- Too bright: the lamp off; if it was, close the curtain, where it is not too bright outside and there is
-- a motor. Else stop the motor, even where there is none.
abbrev pub acts : Machine → Machine
acts m =
    if ltb_ℤ m.indoor.light m.min
    then lights true
        (if ltb_ℤ m.min m.outdoor.light && truthy m.motor then gives (pos 0) (neg 1) m else m)
    else if ltb_ℤ m.max m.indoor.light
    then lights false (
        if m.lit
        then m
        else if ltb_ℤ m.max m.outdoor.light
        then m
        else if truthy m.motor
        then gives (pos 1) (neg 1) m
        else m)
    else gives (pos 0) (pos 0) m

abbrev pub used : Machine → Machine
used m = record m {
  indoor = record (m.indoor) { fresh = false };
  outdoor = record (m.outdoor) { fresh = false };
}

-- Once both sides have new values, the machine acts on them, and they are no longer new.
abbrev pub decide : Machine → Machine
decide m = if m.indoor.fresh && m.outdoor.fresh then used (acts m) else m

-- What a side has heard: of a packet that is not whole, the last value once more.
abbrev pub value : ℕ → ℤ → ℤ → Side → ℤ
value size ret visible side = if eqb_ℤ ret (pos size) then visible else side.tmp

abbrev pub listens : ℤ → Side → Side
listens v side =
    if ltb_ℤ v (pos 0)
    then record side { tmp = v }
    else record side { tmp = v; light = v; fresh = true }

-- A negative value is kept, and nothing is decided.
abbrev pub hears_indoor : ℤ → Machine → Machine
hears_indoor v m =
    let m' = record m { indoor = listens v m.indoor } in if ltb_ℤ v (pos 0) then m' else decide m'

abbrev pub hears_outdoor : ℤ → Machine → Machine
hears_outdoor v m =
    let m' = record m { outdoor = listens v m.outdoor } in if ltb_ℤ v (pos 0) then m' else decide m'

-- The number typed, or the last one where none could be read.
abbrev pub scan : ℤ × ℤ → Machine → ℤ
scan n m = if eqb_ℤ n.0 (pos 1) then n.1 else m.number

-- A word was typed, and it is this.
abbrev pub Says : ℤ × List ℕ → List ℕ → Type 0
Says answer word = (ltb_ℤ (pos 0) answer.0 && str_eq answer.1 word) ≡ true

-- What the machine comes to by what it is told, all of it in that order. A packet counts for the side
-- that its connection is of. A typed word sets a threshold to the number typed next, or gives the motor
-- another connection, or a side one; or it is passed over. A side can lose its connection.
pub data Reaches (size : ℕ) (undef : Undefined) : List Input → Machine → Type 0 where
  rests : Reaches size undef [] at_rest
  by_indoor :
      {is : List Input} {m m' : Machine} (fd ret visible : ℤ)
      → fd ≡ m.indoor.fd
      → m' ≡ hears_indoor (value size ret visible m.indoor) m
      → Reaches size undef is m
      → Reaches size undef (heard fd ret visible ∷ is) m'
  by_outdoor :
      {is : List Input} {m m' : Machine} (fd ret visible : ℤ)
      → fd ≡ m.outdoor.fd
      → m' ≡ hears_outdoor (value size ret visible m.outdoor) m
      → Reaches size undef is m
      → Reaches size undef (heard fd ret visible ∷ is) m'
  by_min :
      {is : List Input} {m m' : Machine} (w w' : ℤ × List ℕ) (n n' : ℤ × ℤ)
      → Says w min_cmd
      → m' ≡ record m { number = scan n' m; min = scan n' m }
      → Reaches size undef is m
      → Reaches size undef (typed w' n' ∷ typed w n ∷ is) m'
  by_max :
      {is : List Input} {m m' : Machine} (w w' : ℤ × List ℕ) (n n' : ℤ × ℤ)
      → Says w max_cmd
      → m' ≡ record m { number = scan n' m; max = scan n' m }
      → Reaches size undef is m
      → Reaches size undef (typed w' n' ∷ typed w n ∷ is) m'
  by_motor :
      {is : List Input} {m m' : Machine} (w w' : ℤ × List ℕ) (n n' : ℤ × ℤ) (fd : ℤ)
      → Says w motor_cmd
      → m' ≡ record m { motor = fd }
      → Reaches size undef is m
      → Reaches size undef (typed w' n' ∷ typed w n ∷ is) m'
  seats_indoor :
      {is : List Input} {m m' : Machine} (w : ℤ × List ℕ) (n : ℤ × ℤ) (fd : ℤ)
      → Says w undef.indoor_sym
      → m' ≡ record m { indoor = record (m.indoor) { fd = fd } }
      → Reaches size undef is m
      → Reaches size undef (typed w n ∷ is) m'
  seats_outdoor :
      {is : List Input} {m m' : Machine} (w : ℤ × List ℕ) (n : ℤ × ℤ) (fd : ℤ)
      → Says w undef.outdoor_sym
      → m' ≡ record m { outdoor = record (m.outdoor) { fd = fd } }
      → Reaches size undef is m
      → Reaches size undef (typed w n ∷ is) m'
  passes :
      {is : List Input} {m : Machine} (w : ℤ × List ℕ) (n : ℤ × ℤ)
      → Reaches size undef is m
      → Reaches size undef (typed w n ∷ is) m
  leaves_indoor :
      {is : List Input} {m m' : Machine}
      → m' ≡ record m { indoor = record (m.indoor) { fd = pos 0 } }
      → Reaches size undef is m
      → Reaches size undef is m'
  leaves_outdoor :
      {is : List Input} {m m' : Machine}
      → m' ≡ record m { outdoor = record (m.outdoor) { fd = pos 0 } }
      → Reaches size undef is m
      → Reaches size undef is m'

-- What it has sent by then.
pub data HasSent (size : ℕ) (undef : Undefined) : List Input → List Sending → Type 0 where
  has_sent :
      {is : List Input} {m : Machine} {sent : List Sending}
      → Reaches size undef is m
      → m.sent ≡ sent
      → HasSent size undef is sent
