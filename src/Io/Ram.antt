-- ===== src/Io/Ram.antt =====
-- A card that never fails: its sectors are a function of their number.
use ee459spring.Base.{
  ℕ, refl, ◌≡◌, List, [], ◌∷◌, length, arith, suc, some, if◌then◌else◌, ap, true, ◌==◌, zero,
  Bool-cases, inl, inr,
}
use ee459spring.Io.Sectors.{Device}

-- a list cut or filled up with zeros to `n` bytes
abbrev pub fit : ℕ → List ℕ → List ℕ
fit zero xs = []
fit (suc n) [] = 0 ∷ fit n []
fit (suc n) (x ∷ xs) = x ∷ fit n xs

pub length-fit : (n : ℕ) (xs : List ℕ) → length (fit n xs) ≡ n
length-fit zero xs = refl
length-fit (suc n) [] = ap suc (length-fit n [])
length-fit (suc n) (x ∷ xs) = ap suc (length-fit n xs)

pub fit_self : (n : ℕ) (xs : List ℕ) → length xs ≡ n → fit n xs ≡ xs
fit_self zero [] h = refl
fit_self zero (x ∷ xs) h = absurd (omega arith)
fit_self (suc n) [] h = absurd (omega arith)
fit_self (suc n) (x ∷ xs) h = ap (λ (t : List ℕ). x ∷ t) (fit_self n xs (omega arith))

-- the sectors as a function of their number
abbrev ram_put : (ℕ → List ℕ) → ℕ → List ℕ → ℕ → List ℕ
ram_put c a buf i = if i == a then buf else c i

pub ram_laws :
    (c : ℕ → List ℕ) (a i : ℕ) (buf : List ℕ)
    → length buf ≡ 512
    → fit 512 (ram_put c a buf i) ≡ (if i == a then buf else fit 512 (c i))
ram_laws c a i buf h = elim (Bool-cases (i == a)) [
  | inl e ↦ rw e (fit_self 512 buf h)
  | inr e ↦ rw e refl
]

pub ram_get :
    (c : ℕ → List ℕ) (a : ℕ) (buf : List ℕ) → some (fit 512 (c a)) ≡ some buf → buf ≡ fit 512 (c a)
ram_get c a buf e = cc

abbrev pub ram : Device
ram = record {
  Card = ℕ → List ℕ;
  sector = λ c a. fit 512 (c a);
  get_sector = λ c a. (some (fit 512 (c a)), c);
  put_sector = λ c a buf. (true, ram_put c a buf);
  length-sector = λ c a. length-fit 512 (c a);
  get_some = ram_get;
  sector-get = λ c a i. refl;
  sector-put = λ c a i buf h _. ram_laws c a i buf h;
}
