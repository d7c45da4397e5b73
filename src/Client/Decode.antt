-- ===== src/Client/Decode.antt =====
-- facade/decode.rs: `decode_walk`. A dict is walked as the calls of `set_item` that made it and a set as
-- the calls of `add`, which are its entries where no key was set twice. The last arm,
-- which passes an object of any other type on, has no case: what the driver builds is a `PyObj`.
use redis_rs_py.Base.{Bytes, if◌then◌else◌}
use redis_rs_py.Base.Text.{utf8}
use redis_rs_py.Base.Result.{Result, ok, err, ◌>>=◌}
use redis_rs_py.Errors.{PyErr, type_error}
use redis_rs_py.Reply.{PyObj, PyObjs, PyItems, set_item, hashable}

-- `set.add(x)?` before the remaining elements.
unfoldable pub add : PyObj → Result PyErr PyObjs → Result PyErr PyObjs
add x rest =
    if hashable x
    then (rest >>= λ xs. ok (PyObjs.and x xs))
    else err (type_error (utf8 "unhashable type"))

-- `to_str` is `bytes.decode` with the encoding and the error handler of the client.
module _ (to_str : Bytes → Result PyErr Bytes) where
  unfoldable mutual
    pub decode_walk : PyObj → Result PyErr PyObj
    decode_walk (PyObj.bytes b) = to_str b >>= λ s. ok (PyObj.str s)
    decode_walk (PyObj.str s) = ok (PyObj.str s)
    decode_walk (PyObj.list xs) = walk_items xs >>= λ ys. ok (PyObj.list ys)
    decode_walk (PyObj.tuple xs) = walk_items xs >>= λ ys. ok (PyObj.tuple ys)
    decode_walk (PyObj.dict kvs) = walk_dict kvs >>= λ ys. ok (PyObj.dict ys)
    decode_walk (PyObj.set xs) = walk_set xs >>= λ ys. ok (PyObj.set ys)
    decode_walk PyObj.none = ok PyObj.none
    decode_walk (PyObj.int n) = ok (PyObj.int n)
    decode_walk (PyObj.bool b) = ok (PyObj.bool b)
    decode_walk (PyObj.float f) = ok (PyObj.float f)

    pub walk_items : PyObjs → Result PyErr PyObjs
    walk_items PyObjs.nil = ok PyObjs.nil
    walk_items (PyObjs.and x xs) =
        decode_walk x >>= λ y. walk_items xs >>= λ ys. ok (PyObjs.and y ys)

    pub walk_dict : PyItems → Result PyErr PyItems
    walk_dict PyItems.empty = ok PyItems.empty
    walk_dict (PyItems.item k v kvs) =
        decode_walk k >>= λ k'. decode_walk v >>= λ v'. set_item k' v' (walk_dict kvs)

    pub walk_set : PyObjs → Result PyErr PyObjs
    walk_set PyObjs.nil = ok PyObjs.nil
    walk_set (PyObjs.and x xs) = decode_walk x >>= λ y. add y (walk_set xs)
