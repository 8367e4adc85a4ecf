-- ===== src/Led/Shows.antt =====
-- What the engine of IndicationEngine.h shows: the frames of the patterns that it was given, in their order.
use mynd_firmware.Prelude.{
  ℕ, zero, suc, ◌≡◌, refl, List, [], ◌∷◌, ◌++◌, true, false, Option, none, some, length, replicate,
}
use mynd_firmware.Led.Pattern.{LedPattern, step, reset}
use mynd_firmware.Led.Engine.{Engine, exec}

-- What a number of calls of `exec` return, and the engine behind them.
unfoldable pub exec_times : ℕ → Engine → Option (List (List ℕ) × Engine)
exec_times zero e = some ([], e)
exec_times (suc rounds) e = elim (exec e) [
  | none ↦ none
  | some (leds, e') ↦ elim (exec_times rounds e') [
    | none ↦ none
    | some (frames, end) ↦ some (leds ∷ frames, end)
  ]
]

-- The last frame, or the one before them.
unfoldable pub last : List (List ℕ) → List ℕ → List ℕ
last [] leds = leds
last (x ∷ frames) leds = last frames x

-- The pattern shows the frames on `n` dark diodes, in this order, is finished with the last of them and not
-- before, and then is the object `rewound`.
abbrev pub PlaysTo : ℕ → LedPattern → LedPattern → List (List ℕ) → Type 0
PlaysTo n rewound object [] = ⊥
PlaysTo n rewound object (x ∷ []) =
    (length x ≡ n)
    × (step object (replicate n 0) ≡ record { finished = true; leds = x; object = rewound })
PlaysTo n rewound object (x ∷ y ∷ frames) =
    (length x ≡ n)
    × ((next : LedPattern) × (step object (replicate n 0)
          ≡ record { finished = false; leds = x; object = next })
        × PlaysTo n rewound next (y ∷ frames))

-- From its beginning, the pattern shows the frames and is at its beginning again.
abbrev pub Plays : ℕ → LedPattern → List (List ℕ) → Type 0
Plays n object frames = PlaysTo n (reset object) (reset object) frames

-- Calls of `exec`, one behind the other, with the frames that they return.
pub data Runs : Engine → List (List ℕ) → Engine → Type 0 where
  here : (e : Engine) → Runs e [] e
  then_exec :
      {e e' end : Engine} {x : List ℕ} {frames : List (List ℕ)}
      → exec e ≡ some (x, e')
      → Runs e' frames end
      → Runs e (x ∷ frames) end

pub Runs-append :
    {e e' end : Engine} {xs ys : List (List ℕ)}
    → Runs e xs e'
    → Runs e' ys end
    → Runs e (xs ++ ys) end
Runs-append (here e) rest = rest
Runs-append (then_exec p run) rest = then_exec p (Runs-append run rest)

pub exec_times-Runs :
    {e end : Engine} {frames : List (List ℕ)}
    → Runs e frames end
    → exec_times (length frames) e ≡ some (frames, end)
unfolding exec_times
exec_times-Runs (here e) = refl
exec_times-Runs (then_exec p run) = rw (p, exec_times) (rw (exec_times-Runs run) refl)
