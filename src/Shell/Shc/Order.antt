-- ===== src/Shell/Shc/Order.antt =====
-- What the program reads of a process through `shc` of src/shell.cpp.
use ztd.Base.{
  ℕ, Bool, true, false, Option, some, List, [], ◌∷◌, ◌++◌, ◌≡◌, ◌≢◌, ◌⊎◌, inl, inr, refl, arith,
  sym, ap, ◌∙◌, append_assoc,
}
use ztd.Base.Text.{Bytes}
use ztd.Shell.Shc.{
  Shc, Caller, popping, waits_start, waits_output, waits_finish, wake_start, wake_output,
  wake_finish, Worker, gone, unborn, starting, announcing, opening, reading, pushing, told,
  returned, stopped, told_last, ended, Step, Reach, start, later,
}
use ztd.Shell.{exit_status}

-- The lines that the thread has not pushed.
abbrev pub to_come : List Bytes → Worker → List Bytes
to_come lines unborn = lines
to_come lines starting = lines
to_come lines announcing = lines
to_come lines opening = lines
to_come lines (reading rest) = rest
to_come lines (pushing line rest) = line ∷ rest
to_come lines (told rest) = rest
to_come lines w = []

-- What the thread has set at its place.
abbrev pub HasSet : ℕ → Worker → Bool → Option ℕ → Type 0
HasSet status unborn running value = running ≡ false
HasSet status starting running value = running ≡ false
HasSet status announcing running value = running ≡ true
HasSet status opening running value = running ≡ true
HasSet status (reading rest) running value = running ≡ true
HasSet status (pushing line rest) running value = running ≡ true
HasSet status (told rest) running value = running ≡ true
HasSet status returned running value = (running ≡ true) × (value ≡ some (exit_status status))
HasSet status stopped running value = (running ≡ false) × (value ≡ some (exit_status status))
HasSet status told_last running value = (running ≡ false) × (value ≡ some (exit_status status))
HasSet status ended running value = (running ≡ false) × (value ≡ some (exit_status status))

-- Between `front` and `pop` the line is still the first one.
abbrev HasFront : Caller → List Bytes → Type 0
HasFront (popping ret) output = (later : List Bytes) × (output ≡ ret ∷ later)
HasFront c output = Unit

HasFront-wake_start : (c : Caller) (o : List Bytes) → HasFront c o → HasFront (wake_start c) o
HasFront-wake_start waits_start o h = tt
HasFront-wake_start _ o h = h

HasFront-wake_output : (c : Caller) (o : List Bytes) → HasFront c o → HasFront (wake_output c) o
HasFront-wake_output waits_output o h = tt
HasFront-wake_output _ o h = h

HasFront-wake_finish : (c : Caller) (o : List Bytes) → HasFront c o → HasFront (wake_finish c) o
HasFront-wake_finish waits_finish o h = tt
HasFront-wake_finish _ o h = h

HasFront-append :
    (c : Caller) (o : List Bytes) (line : Bytes) → HasFront c o → HasFront c (o ++ line ∷ [])
HasFront-append (popping ret) o line h =
    (h.0 ++ line ∷ [], ap (λ (x : List Bytes). x ++ line ∷ []) h.1)
HasFront-append _ o line h = h

-- Between two steps.
record Holds (lines : List Bytes) (status : ℕ) (s : Shc) : Type 0 where
  ordered : s.got ++ (s.output ++ to_come lines s.worker) ≡ lines
  has_set : HasSet status s.worker s.running s.return_value
  joined : (s.caller ≢ gone) ⊎ (s.worker ≡ ended)
  front : HasFront s.caller s.output

front_same :
    (c : Caller) (o : List Bytes) (ret first : Bytes) (rest : List Bytes)
    → HasFront c o
    → c ≡ popping ret
    → o ≡ first ∷ rest
    → o ≡ ret ∷ rest
front_same (popping x) o ret first rest h e f = ground arith
front_same _ o ret first rest h e f = absurd (ground arith)

Step-Holds :
    {lines : List Bytes} {status : ℕ} {s t : Shc}
    → Step lines status s t
    → Holds lines status s
    → Holds lines status t
Step-Holds {lines} {status} {s} (Step.fronts first rest h e p) i = record {
  ordered = i.ordered;
  has_set = i.has_set;
  joined = ground arith;
  front = (rest, e);
}
Step-Holds {lines} {status} {s} (Step.pops ret first rest h e p) i = record {
  ordered =
      append_assoc s.got (ret ∷ []) (rest ++ to_come lines s.worker)
      ∙ ap (λ (o : List Bytes). s.got ++ (o ++ to_come lines s.worker))
          (sym (front_same s.caller s.output ret first rest i.front h e))
      ∙ i.ordered;
  has_set = i.has_set;
  joined = ground arith;
  front = tt;
}
Step-Holds {lines} {status} {s} (Step.pushes line rest h) i = record {
  ordered =
      ap (◌++◌ s.got) (append_assoc s.output (line ∷ []) rest)
      ∙ ap (λ (w : Worker). s.got ++ (s.output ++ to_come lines w)) (sym h)
      ∙ i.ordered;
  has_set = ground arith;
  joined = ground arith;
  front = HasFront-append s.caller s.output line i.front;
}
Step-Holds {lines} {status} {s} (Step.reads_line line rest h) i = record {
  ordered = ground arith;
  has_set = ground arith;
  joined = ground arith;
  front = i.front;
}
Step-Holds (Step.races h p) i = record {
  ordered = i.ordered;
  has_set = i.has_set;
  joined = i.joined;
  front = i.front;
}
Step-Holds {lines} {status} {s} (Step.announces h) i = record {
  ordered = ground arith;
  has_set = ground arith;
  joined = ground arith;
  front = HasFront-wake_start s.caller s.output i.front;
}
Step-Holds {lines} {status} {s} (Step.tells rest h) i = record {
  ordered = ground arith;
  has_set = ground arith;
  joined = ground arith;
  front = HasFront-wake_output s.caller s.output i.front;
}
Step-Holds {lines} {status} {s} (Step.tells_last h) i = record {
  ordered = ground arith;
  has_set = ground arith;
  joined = ground arith;
  front = HasFront-wake_output s.caller s.output i.front;
}
Step-Holds {lines} {status} {s} (Step.tells_finish h) i = record {
  ordered = ground arith;
  has_set = ground arith;
  joined = ground arith;
  front = HasFront-wake_finish s.caller s.output i.front;
}
Step-Holds (Step.starts h) i = record {
  ordered = ground arith;
  has_set = ground arith;
  joined = ground arith;
  front = i.front;
}
Step-Holds (Step.opens pid n h) i = record {
  ordered = ground arith;
  has_set = ground arith;
  joined = ground arith;
  front = i.front;
}
Step-Holds (Step.returns h) i = record {
  ordered = ground arith;
  has_set = ground arith;
  joined = ground arith;
  front = i.front;
}
Step-Holds (Step.stops h) i = record {
  ordered = ground arith;
  has_set = ground arith;
  joined = ground arith;
  front = i.front;
}
Step-Holds (Step.runs h e f) i = record {
  ordered = ground arith;
  has_set = ground arith;
  joined = ground arith;
  front = tt;
}
Step-Holds (Step.joins_thread h e) i = record {
  ordered = i.ordered;
  has_set = i.has_set;
  joined = inr e;
  front = tt;
}
Step-Holds (Step.kills_nothing h e) i = i
Step-Holds (Step.gets_nothing h e p) i = i
Step-Holds _ i = record {
  ordered = i.ordered;
  has_set = i.has_set;
  joined = ground arith;
  front = tt;
}

Reach-Holds :
    {lines : List Bytes} {status : ℕ} {s : Shc} → Reach lines status s → Holds lines status s
Reach-Holds start = record { ordered = refl; has_set = refl; joined = inl λ e. cc; front = tt }
Reach-Holds (later r n st) = Step-Holds st (Reach-Holds r)

-- In every state that a new `shc` reaches, in whatever order the program and the thread run: the lines
-- that the program got, those in `output` and those that the thread has not pushed are the lines of
-- the process, in order. `running` is set from the start of the thread on, until all lines are pushed
-- and `return_value` is the exit status. Behind the destructor the thread has ended.
pub Reach-ordered :
    {lines : List Bytes} {status : ℕ} {s : Shc}
    → Reach lines status s
    → (s.got ++ (s.output ++ to_come lines s.worker) ≡ lines)
      × HasSet status s.worker s.running s.return_value
      × ((s.caller ≢ gone) ⊎ (s.worker ≡ ended))
Reach-ordered r = ((Reach-Holds r).ordered, (Reach-Holds r).has_set, (Reach-Holds r).joined)
