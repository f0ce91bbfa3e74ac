-- ===== src/Io/Tests.antt =====
-- The encoding of results at an error and at a number.
use idos_nx.Base.{◌≡◌, refl}
use idos_nx.Base.Results.{err}
use idos_nx.Io.Error.{already_open, complete_word, into}

already_open_word : complete_word (err already_open) ≡ 0x80000008
unfolding complete_word into
already_open_word = refl
