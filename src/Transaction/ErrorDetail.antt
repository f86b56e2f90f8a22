-- ===== src/Transaction/ErrorDetail.antt =====
-- What is stored of a failed transaction's error.
use Prim.Native.String.{len}
use mathlib.Core.Option
use mathlib.Core.Option.{some-injective}
use text.Mathlib.TextLemmas.{append-nil}
use text.Mathlib.TextPositions.{get?-append_middle, len-append}
use text.Mathlib.Text.{get?}
use solana_indexer_plugin.Base.{
  ℕ, ◌≤◌, ◌<◌, String, ◌<>◌, true, false, Option, none, some, ◌≡◌, refl, ap, sym, subst, arith, ltb,
  bind-eq-some, ◌∙◌,
}
use solana_indexer_plugin.Transaction.Names.{label, variant_name, label-error_code}
use solana_indexer_plugin.Transaction.{
  TransactionError, DbTransactionError, error_code, kept_detail, detail_text, error_detail,
  get_transaction_error, max_transaction_status_len,
}

ltb_of_lt : (a b : ℕ) → a < b → ltb a b ≡ true
ltb_of_lt a b h = ground arith

ltb_of_le : (a b : ℕ) → b ≤ a → ltb a b ≡ false
ltb_of_le a b h = ground arith

kept_detail_short : (detail : String) → len detail ≤ 256 → kept_detail detail ≡ some detail
unfolding kept_detail
kept_detail_short detail h = rw (ltb_of_le 256 (len detail) h) refl

kept_detail_tail :
    (head tail : String) → len head ≡ 256 → 0 < len tail → kept_detail (head <> tail) ≡ some tail
unfolding kept_detail
kept_detail_tail head tail h p =
    rw (ltb_of_lt 256 (len (head <> tail)) (omega (arith, len-append head tail))) tail_of
  where
    tail_of : get? (head <> tail) 256 (len (head <> tail)) ≡ some tail
    tail_of =
        subst (λ (t : String). get? (head <> t) 256 (len (head <> tail)) ≡ some tail)
          (append-nil tail)
          (subst (λ n. get? (head <> (tail <> "")) n (len (head <> tail)) ≡ some tail) h
            (subst (λ n. get? (head <> (tail <> "")) (len head) n ≡ some tail)
              (sym (len-append head tail)) (get?-append_middle head tail "")))

-- The row of an instruction error whose text is at most 256 bytes long holds the whole text.
get_transaction_error-short :
    (idx : ℕ) (error : String)
    → len (detail_text idx error) ≤ max_transaction_status_len
    → get_transaction_error (some (TransactionError.instruction_error idx error))
      ≡ some (
          some (record {
            error_code = error_code (TransactionError.instruction_error idx error);
            error_detail = some (detail_text idx error);
          }))
unfolding get_transaction_error
get_transaction_error-short idx error h = rw (kept_detail_short (detail_text idx error) h) refl

-- Of a longer text of an instruction error that splits after its first 256 bytes, the row holds
-- what comes after them, not those bytes.
pub get_transaction_error-tail :
    (idx : ℕ) (error head tail : String)
    → detail_text idx error ≡ head <> tail
    → len head ≡ max_transaction_status_len
    → 0 < len tail
    → get_transaction_error (some (TransactionError.instruction_error idx error))
      ≡ some (
          some (record {
            error_code = error_code (TransactionError.instruction_error idx error);
            error_detail = some tail;
          }))
unfolding get_transaction_error
get_transaction_error-tail idx error head tail e h p = rw (e, kept_detail_tail head tail h p) refl

-- Where the conversion of a status does not panic, an error is recorded exactly for a failed
-- transaction, and its code is stored under the name of the transaction's own error.
pub get_transaction_error-code :
    (status : Option TransactionError) (row : Option DbTransactionError)
    → get_transaction_error status ≡ some row
    → Option.map (λ (r : DbTransactionError). label r.error_code) row
      ≡ Option.map variant_name status
unfolding get_transaction_error
get_transaction_error-code none row h = ground arith
get_transaction_error-code (some error) row h =
    let (detail, _, made) = bind-eq-some (error_detail error) _ h in
    ap (Option.map (λ (r : DbTransactionError). label r.error_code)) (sym (some-injective _ _ made))
    ∙ ap some (label-error_code error)
