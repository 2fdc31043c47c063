-- ===== src/Tests/Find.antt =====
-- `text.find(words) != std::string::npos`, as the tests under litearm_driver/test use it.
use Prim.Native.Char.{code}
use litearm_ros.Prelude.{Bool, true, false, ◌&&◌, ◌||◌, ◌==◌, String}

starts : String → String → Bool
starts String.[] text = true
starts (String.◌∷◌ c words) String.[] = false
starts (String.◌∷◌ c words) (String.◌∷◌ d text) = code c == code d && starts words text

unfoldable pub finds : String → String → Bool
unfolding starts
finds words String.[] = starts words ""
finds words (String.◌∷◌ d text) = starts words (String.◌∷◌ d text) || finds words text
