-- ===== src/Tests/Records.antt =====
-- The shift of a request of matsko/33_proxy_with_thread_pool at a small input.
use posix_threads.Common.{◌≡◌, refl, [], ◌∷◌}
use posix_threads.PoolProxy.Response.{shift_buffer}

-- What followed the first two bytes was 3, 4, 5.
shift_buffer_smears : shift_buffer 2 5 (1 ∷ 2 ∷ 3 ∷ 4 ∷ 5 ∷ 0 ∷ []) ≡ 1 ∷ 2 ∷ 1 ∷ 0 ∷ 0 ∷ 0 ∷ []
unfolding shift_buffer
shift_buffer_smears = refl
