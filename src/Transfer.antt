-- ===== src/Transfer.antt =====
-- src/neo/io/concepts/result.hpp, src/neo/io/stream/result.hpp and
-- src/neo/io/completion_condition.hpp: the results of transfers and the conditions that stop them.
use neo_io.Prelude.{
  ℕ, ◌≡◌, refl, Bool, false, not, Option, none, some, ◌==◌, if◌then◌else◌, add_size, sub_size,
  size_mod, ◌-◌,
}

-- The categories of `std::error_code` that the sources name.
pub data ErrorCategory : Type 0 where
  system_category generic_category ssl_category getaddrinfo_category : ErrorCategory

-- `std::error_code`; the value is the bit pattern of the `int`.
pub record ErrorCode : Type 0 where
  pub value : ℕ
  pub category : ErrorCategory

-- `std::error_code{}`.
abbrev pub no_error : ErrorCode
no_error = record { value = 0; category = system_category }

-- `explicit operator bool` of `std::error_code`.
abbrev pub is_error : ErrorCode → Bool
is_error ec = not (ec.value == 0)

-- What a function that may throw `std::system_error` does.
pub data Outcome {ℓ} (A : Type ℓ) : Type ℓ where
  returned : A → Outcome A
  thrown : ErrorCode → Outcome A

-- The concept `transfer_result`: what the algorithms use of a result type. `has_error` is there
-- only for a type that has such a method.
pub record TransferResult (R : Type 0) : Type 0 where
  pub fresh : R
  pub bytes_transferred : R → ℕ
  pub with_bytes : R → ℕ → R
  pub error : R → ErrorCode
  pub has_error : Option (R → Bool)

-- The `if constexpr` of `transfer_errant`, over the optional method.
abbrev pub errant_by {ℓ} : {R : Type ℓ} → Option (R → Bool) → (R → ErrorCode) → R → Bool
errant_by (some has_error) error r = has_error r
errant_by none error r = is_error (error r)

module _ {R : Type 0} ⦃t : TransferResult R⦄ where
  abbrev pub transfer_errant : R → Bool
  transfer_errant r = errant_by t.has_error t.error r

  abbrev pub throw_if_transfer_errant : R → Outcome (Unit {0})
  throw_if_transfer_errant r = if transfer_errant r then thrown (t.error r) else returned tt

  abbrev pub sum_transfer_result : R → R → R
  sum_transfer_result left right =
      t.with_bytes right (add_size (t.bytes_transferred right) (t.bytes_transferred left))

-- What the algorithms rely on: `bytes_transferred` is a field of its own, and a result without a
-- failure is the initial one.
pub record IsTransferResult {R : Type 0} (t : TransferResult R) : Type 0 where
  pub bytes-fresh : t.bytes_transferred t.fresh ≡ 0
  pub errant-fresh : transfer_errant ⦃t = t⦄ t.fresh ≡ false
  pub bytes-with_bytes : (r : R) (n : ℕ) → t.bytes_transferred (t.with_bytes r n) ≡ n
  pub errant-with_bytes :
      (r : R) (n : ℕ) → transfer_errant ⦃t = t⦄ (t.with_bytes r n) ≡ transfer_errant ⦃t = t⦄ r
  pub error-with_bytes : (r : R) (n : ℕ) → t.error (t.with_bytes r n) ≡ t.error r

pub record BasicTransferResult : Type 0 where
  pub bytes_transferred : ℕ
  pub ec : ErrorCode

instance abbrev pub basic_transfer_result : TransferResult BasicTransferResult
basic_transfer_result = record {
  fresh = record { bytes_transferred = 0; ec = no_error };
  bytes_transferred = λ r. r.bytes_transferred;
  with_bytes = λ r n. record r { bytes_transferred = n };
  error = λ r. r.ec;
  has_error = none;
}

-- `native_transfer_result`; `errn` is the bit pattern of the `int`.
pub record NativeTransferResult : Type 0 where
  pub bytes_transferred : ℕ
  pub errn : ℕ

instance abbrev pub native_transfer_result : TransferResult NativeTransferResult
native_transfer_result = record {
  fresh = record { bytes_transferred = 0; errn = 0 };
  bytes_transferred = λ r. r.bytes_transferred;
  with_bytes = λ r n. record r { bytes_transferred = n };
  error = λ r. record { value = r.errn; category = system_category };
  has_error = some (λ r. not (r.errn == 0));
}

pub basic-IsTransferResult : IsTransferResult basic_transfer_result
basic-IsTransferResult = record {
  bytes-fresh = refl;
  errant-fresh = refl;
  bytes-with_bytes = λ r n. refl;
  errant-with_bytes = λ r n. refl;
  error-with_bytes = λ r n. refl;
}

pub native-IsTransferResult : IsTransferResult native_transfer_result
native-IsTransferResult = record {
  bytes-fresh = refl;
  errant-fresh = refl;
  bytes-with_bytes = λ r n. refl;
  errant-with_bytes = λ r n. refl;
  error-with_bytes = λ r n. refl;
}

module _ {R : Type 0} ⦃t : TransferResult R⦄ where
  -- `transfer_all`: the largest `std::size_t`.
  abbrev pub transfer_all : R → ℕ
  transfer_all r = size_mod - 1

  -- `transfer_exactly{size}`; the subtraction wraps.
  abbrev pub transfer_exactly : ℕ → R → ℕ
  transfer_exactly size r = sub_size size (t.bytes_transferred r)
