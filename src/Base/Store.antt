-- ===== src/Base/Store.antt =====
-- Memory as a map from indices to values, with no bounds of its own, as a C pointer sees it.
use Prim.Native.Nat.{ℕ}
use mike_os.Base.Tests.{◌==◌, if◌then◌else◌}

-- `write m a v` is `m` after `m[a] = v`.
abbrev pub write {ℓ} : {A : Type ℓ} → (ℕ → A) → ℕ → A → ℕ → A
write m a v b = if a == b then v else m b
