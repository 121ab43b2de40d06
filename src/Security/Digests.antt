-- ===== src/Security/Digests.antt =====
-- What the digests of src/security.rs are, and what their comparison says.
use nexus_intelli_core.Prelude.{
  ℕ, zero, suc, ◌*◌, ◌/◌, ◌<◌, true, length, length-append, All, All-append, ◌≡◌, ◌↔◌, refl, sym,
  ap, ◌∙◌, arith, ◌==◌, ==_iff,
}
use nexus_intelli_core.Prelude.Text.{Text}
use Prim.Native.Nat.{bit_xor}
use nexus_intelli_core.Server.Compare.{
  Digest, diff_from, diff_from-zero, diff_from_self, bit_xor-eq_zero, bit_xor_self,
}
use nexus_intelli_core.Security.{
  Hasher, le_bytes, digest_chunks, compute_token_digest, constant_time_compare,
}

length-le_bytes : (k n : ℕ) → length (le_bytes k n) ≡ k
unfolding le_bytes
length-le_bytes zero n = refl
length-le_bytes (suc k) n = ap suc (length-le_bytes k (n / 256))

length-digest_chunks :
    (finish : Hasher) (token : Text) (k i : ℕ) → length (digest_chunks finish token k i) ≡ k * 8
unfolding digest_chunks
length-digest_chunks finish token zero i = refl
length-digest_chunks finish token (suc k) i =
    length-append (le_bytes 8 (finish i token)) (digest_chunks finish token k (suc i))
    ∙ omega (arith, length-le_bytes 8 (finish i token), length-digest_chunks finish token k (suc i))

IsByte : ℕ → Type 0
IsByte n = n < 256

le_bytes-IsByte : (k n : ℕ) → All IsByte (le_bytes k n)
unfolding le_bytes IsByte
le_bytes-IsByte zero n = tt
le_bytes-IsByte (suc k) n = (omega arith, le_bytes-IsByte k (n / 256))

chunks-IsByte :
    (finish : Hasher) (token : Text) (k i : ℕ) → All IsByte (digest_chunks finish token k i)
unfolding digest_chunks
chunks-IsByte finish token zero i = tt
chunks-IsByte finish token (suc k) i =
    All-append IsByte (le_bytes 8 (finish i token)) _ (le_bytes-IsByte 8 (finish i token))
      (chunks-IsByte finish token k (suc i))

-- A digest has 32 bytes, whatever the token and the hasher.
pub compute_token_digest-IsDigest :
    (finish : Hasher) (token : Text)
    → (length (compute_token_digest finish token) ≡ 32)
      × All (λ b. b < 256) (compute_token_digest finish token)
unfolding compute_token_digest IsByte
compute_token_digest-IsDigest finish token =
    (length-digest_chunks finish token 4 0, chunks-IsByte finish token 4 0)

compare-same : (m n : ℕ) (d c : Digest) → m ≡ n → d ≡ c → (diff_from (bit_xor m n) d c == 0) ≡ true
compare-same m n d c e f = (==_iff _ 0).1 (rw (e, f) (rw (bit_xor_self n) (diff_from_self c)))

-- Comparing two texts in constant time says whether their lengths and their digests are the same.
pub compare_texts_iff :
    (finish : Hasher) (a b : Text)
    → (constant_time_compare finish a b ≡ true)
      ↔ ((length a ≡ length b) × (compute_token_digest finish a ≡ compute_token_digest finish b))
unfolding constant_time_compare
compare_texts_iff finish a b =
    let same_size =
      (compute_token_digest-IsDigest finish a).0
      ∙ sym ((compute_token_digest-IsDigest finish b).0) in
    (
      λ e.
          let (d, same) =
            diff_from-zero (bit_xor (length a) (length b)) (compute_token_digest finish a)
              (compute_token_digest finish b) same_size ((==_iff _ 0).0 e) in
          (bit_xor-eq_zero (length a) (length b) d, same),
      λ s.
          compare-same (length a) (length b) (compute_token_digest finish a)
            (compute_token_digest finish b) s.0 s.1,
    )
