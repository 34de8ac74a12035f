-- ===== src/Shell/Pipe/Descriptors.antt =====
-- The ends of the pipe behind `eopen` of src/shell.cpp.
use ztd.Base.{ℕ, none, some, List, ◌≡◌, ◌≢◌, arith, if◌then◌else◌}
use ztd.Base.Text.{Bytes}
use ztd.Shell.Pipe.{
  Descriptors, Child, Parent, Opened, read_end, write_end, forked, dup2, reads, child_of, eopen,
}

-- The call made a child, and `P` holds of it and of the program.
pub data Forks (P : Child → Parent → Type 0) : Opened → Type 0 where
  forks : {c : Child} {p : Parent} → P c p → Forks P (forked c p)

-- The pipe lies between the program and the child: the program holds only its own end, at the
-- descriptor of the stream; the child has the other end at 0 or 1, and not the end of the program; at
-- all other descriptors both have what was open before.
pub record IsPiped (t : Descriptors) (type : Bytes) (r w : ℕ) (c : Child) (p : Parent)
    : Type 0 where
  pub own : p.descriptors p.fd ≡ some (if reads type then read_end else write_end)
  pub only : (x : ℕ) → x ≢ p.fd → p.descriptors x ≡ t x
  pub standard :
      c.descriptors (if reads type then 1 else 0)
      ≡ some (if reads type then write_end else read_end)
  pub not_own : (x : ℕ) → c.descriptors x ≢ some (if reads type then read_end else write_end)
  pub before : (x : ℕ) → x ≢ r → x ≢ w → x ≢ (if reads type then 1 else 0) → c.descriptors x ≡ t x

-- No descriptor is open on the pipe yet.
abbrev pub AreOlder : Descriptors → Type 0
AreOlder t = (x : ℕ) → (t x ≢ some read_end) × (t x ≢ some write_end)

-- Where `pipe` gives two descriptors that were not open and `fork` makes a child, `eopen` returns. With
-- an r in its type the program holds the end to read from, at the descriptor of the stream, and the child
-- the end to write to, as its descriptor 1; without an r it is the other way round, with the child's
-- descriptor 0. Neither of them holds the other one's end of the pipe, and what was open before is as it
-- was, less what the child's standard descriptor was.
pub eopen-IsPiped :
    (t : Descriptors) (r w p : ℕ) (type bin : Bytes) (args : List Bytes)
    → r ≢ w
    → t r ≡ none
    → t w ≡ none
    → AreOlder t
    → Forks (IsPiped t type r w) (eopen t (some (r, w)) (some p) type bin args)
unfolding eopen child_of dup2
eopen-IsPiped t r w p type bin args n a b o = forks (record {
  own = ground arith;
  only = λ x h. ground arith;
  standard = ground arith;
  not_own = λ x. ground (arith, o x);
  before = λ x h k m. ground arith;
})
